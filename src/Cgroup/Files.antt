-- ===== src/Cgroup/Files.antt =====
-- `WriteToFile` and `ReadFromFile`.
use deep_oj.Common.{Bool, not, [], ◌∷◌, ◌==◌, if◌then◌else◌}
use deep_oj.Common.Bytes.{Bytes}
use deep_oj.Os.{read_file, write_file}
use deep_oj.Os.Flow.{M, ◌>>=◌, pure, sys, failed}

-- The text up to the first newline: one `std::getline`.
unfoldable pub first_line : Bytes → Bytes
first_line [] = []
first_line (b ∷ s) = let rest = first_line s in if b == b'\n' then [] else b ∷ rest

-- `WriteToFile`. A write that gives -1 could not open the file; one that gives anything else but 0 has
-- failed when the buffer was flushed, which is behind `ofs.good()` and so not noticed.
unfoldable pub write_to_file : Bytes → Bytes → M Bool
write_to_file path value = do r ← sys (write_file path value); pure (not (failed r))

unfoldable pub read_from_file : Bytes → M Bytes
read_from_file path = do
  r ← sys (read_file path)
  pure (if failed r then [] else first_line r.bytes)
