-- ===== src/Main/Sets.antt =====
-- What an option sets, for each setting.
use deep_oj.Common.{Bool, true, Option, none, some, is_some, if◌then◌else◌}
use deep_oj.Common.Int.{ℤ, negsuc}
use deep_oj.Common.Bytes.{Bytes}
use deep_oj.Common.Numbers.{stoi, stoll}
use deep_oj.Sandbox.Watch.{or_old}
use deep_oj.Main.Options.{
  GetOpt, opt_source, opt_request, opt_code, opt_time, opt_memory, opt_input, opt_output, opt_error,
  opt_dir, opt_config, opt_job, opt_attempt, opt_compile, opt_cleanup, opt_self_test,
}

abbrev pub source : GetOpt → Option Bytes
source (opt_source arg) = some arg
source _ = none

abbrev pub request : GetOpt → Option Bytes
request (opt_request arg) = some arg
request _ = none

abbrev pub code : GetOpt → Option Bytes
code (opt_code arg) = some arg
code _ = none

abbrev pub input : GetOpt → Option Bytes
input (opt_input arg) = some arg
input _ = none

abbrev pub output : GetOpt → Option Bytes
output (opt_output arg) = some arg
output _ = none

abbrev pub error : GetOpt → Option Bytes
error (opt_error arg) = some arg
error _ = none

abbrev pub dir : GetOpt → Option Bytes
dir (opt_dir arg) = some arg
dir _ = none

abbrev pub job : GetOpt → Option Bytes
job (opt_job arg) = some arg
job _ = none

abbrev pub loads : GetOpt → Option (Option Bytes)
loads (opt_config arg) = some (some arg)
loads _ = none

abbrev pub time : GetOpt → Option ℤ
time (opt_time arg) = stoi arg
time _ = none

abbrev pub memory : GetOpt → Option ℤ
memory (opt_memory arg) = stoi arg
memory _ = none

abbrev pub attempt : GetOpt → Option ℤ
attempt (opt_attempt arg) = some (or_old (stoll arg) (negsuc 0))
attempt _ = none

abbrev pub explicit : GetOpt → Option Bool
explicit (opt_attempt arg) = if is_some (stoll arg) then some true else none
explicit _ = none

abbrev pub compile : GetOpt → Option Bool
compile opt_compile = some true
compile _ = none

abbrev pub cleanup : GetOpt → Option Bool
cleanup opt_cleanup = some true
cleanup _ = none

abbrev pub self_test : GetOpt → Option Bool
self_test opt_self_test = some true
self_test _ = none
