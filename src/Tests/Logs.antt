-- ===== src/Tests/Logs.antt =====
-- The log at concrete states.
use soproyecto.Common.{◌<◌, ◌≤◌, ◌≡◌, ◌⊎◌, inr, refl, arith}
use soproyecto.Tests.Demo.{small_log}
use soproyecto.Log.{commit, recover_from_log}
use soproyecto.Log.Recovery.{Installed, rebooted}
use soproyecto.Log.Commit.{commit-recover_from_log}

-- The power fails after three writes, the last of which is that of the header.
commit-recover_from_log_example :
    ((3 ≤ 2)
      × ((recover_from_log (rebooted (λ _. 0) 5 (commit small_log))).store.disk 40 ≡ (λ _. 0)))
    ⊎ ((2 < 3)
        × Installed 2 small_log.block small_log.store.disk small_log.store.cache 40
            ((recover_from_log (rebooted (λ _. 0) 5 (commit small_log))).store.disk 40))
commit-recover_from_log_example =
    commit-recover_from_log small_log (λ _. 0) 5 40 refl (λ i h. inr (omega arith)) (omega arith)
      (inr (omega arith))
