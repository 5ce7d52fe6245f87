-- ===== src/Exception/Tests.antt =====
-- An exception at the level WARN, with a logger that has one sink and no format blocks.
use ks_core.Base.{◌≡◌, refl, true, some, [], ◌∷◌, codes}
use ks_core.Log.{free, held, lock, warn, Logger, prefix}
use ks_core.Log.Lines.{CanLock}
use ks_core.Exception.{Exception, new_exception, what}
use ks_core.Exception.Message.{read_what, read_what-new_exception}

abbrev logger : Logger
logger = record { mutex = free; list_sinks = 4 ∷ []; filter = λ i. true; list_fb = λ i. [] }

logger-CanLock : CanLock 5 logger
unfolding lock
logger-CanLock = (held 5 0, refl)

no_prefix : prefix 0 [] ≡ some []
unfolding prefix
no_prefix = refl

read_what-new_exception_example :
    (e : Exception) × (new_exception warn (codes "low") 5 0 logger
      ≡ some (e, logger, (4, codes "low") ∷ []))
    × (read_what (what e) ≡ some (warn, codes "low"))
read_what-new_exception_example =
    read_what-new_exception warn (codes "low") 5 0 logger [] logger-CanLock no_prefix
