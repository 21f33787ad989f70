-- ===== src/Error/Laws.antt =====
-- What the queries of `Error` tell apart.
use forstio.Prelude.{◌≡◌, Bool, false, ◌||◌, ◌&&◌, arith}
use forstio.Error.{Error, failed, is_critical, is_recoverable, copy_error}

module _ (e : Error) where
  -- An error has failed exactly when it is critical or recoverable, and it is never both.
  pub failed-classes :
      (failed e ≡ (is_critical e || is_recoverable e))
      × ((is_critical e && is_recoverable e) ≡ false)
  failed-classes = ground arith

-- A copy has the code of its error, whether or not the text could be copied.
pub code-copy_error : (memory : Bool) (e : Error) → (copy_error memory e).code ≡ e.code
unfolding copy_error
code-copy_error memory e = ground arith
