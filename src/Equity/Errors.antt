-- ===== src/Equity/Errors.antt =====
-- What calculate_equity of src/core/equity_hands.cpp throws.
use xia_pl.Base.{Option, none, some}
use xia_pl.Base.Errors.{Result, ok, err, Exception}
use xia_pl.Weights.{Weights}
use xia_pl.Equity.Stats.{Stats}

unfoldable pub exception_of {ℓ} : {A : Type ℓ} → Result A → Option Exception
exception_of (ok a) = none
exception_of (err e) = some e
