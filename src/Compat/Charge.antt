-- ===== src/Compat/Charge.antt =====
-- What each code of the parsers is charged to.
use caly_anti.Base.{◌≡◌, ◌≢◌, refl, not}
use caly_anti.Abi.Reason.{stat_reason_is_drop}
use caly_anti.Compat.Errors.{ParseErr, parse_err_reason, parse_err_benign}

-- Every code but CALY_ERR_INVAL is charged to a reason for a drop exactly when it is not one of the
-- three benign codes: a benign packet is never counted as dropped, nor a bad one as passed.
pub parse_err_reason-is_drop :
    (e : ParseErr)
    → e ≢ ParseErr.inval
    → stat_reason_is_drop (parse_err_reason e) ≡ not (parse_err_benign e)
unfolding stat_reason_is_drop parse_err_reason parse_err_benign
parse_err_reason-is_drop ParseErr.inval h = absurd (h refl)
parse_err_reason-is_drop _ h = refl
