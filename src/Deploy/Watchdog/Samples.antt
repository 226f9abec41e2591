-- ===== src/Deploy/Watchdog/Samples.antt =====
-- Runs of the watchdog of deploy/vm/idle_watchdog.py.
use learn_arken.Prelude.{◌≡◌, refl, false, none, some, List, [], ◌∷◌, arith}
use learn_arken.Prelude.Int.{pos}
use learn_arken.Deploy.Watchdog.{
  unreachable_reason, Reply, unreachable, malformed, Probe, boot_window, main, runs,
}
use learn_arken.Deploy.Watchdog.Strikes.{IsFailing, main-runs}

abbrev at_an_hour : Reply → Probe
at_an_hour r = record {
  uptime = some (pos 3600);
  uptime_in_window = some (pos 3600);
  uptime_at_end = some (pos 3601);
  provisioning = false;
  reply = r;
}

abbrev nine : List Probe
nine =
    at_an_hour unreachable
    ∷ at_an_hour unreachable
    ∷ at_an_hour unreachable
    ∷ at_an_hour malformed
    ∷ at_an_hour unreachable
    ∷ at_an_hour malformed
    ∷ at_an_hour unreachable
    ∷ at_an_hour unreachable
    ∷ at_an_hour unreachable
    ∷ []

unreachable-IsFailing : IsFailing (at_an_hour unreachable)
unfolding boot_window
unreachable-IsFailing = (refl, refl, refl)

malformed-IsFailing : IsFailing (at_an_hour malformed)
unfolding boot_window
malformed-IsFailing = (refl, refl, refl)

main-runs_example : (main (at_an_hour malformed) (runs nine none).0).1 ≡ some unreachable_reason
main-runs_example =
    main-runs nine (at_an_hour malformed) none (0, refl)
      (
        unreachable-IsFailing,
        (
          unreachable-IsFailing,
          (
            unreachable-IsFailing,
            (
              malformed-IsFailing,
              (
                unreachable-IsFailing,
                (
                  malformed-IsFailing,
                  (unreachable-IsFailing, (unreachable-IsFailing, (unreachable-IsFailing, tt))),
                ),
              ),
            ),
          ),
        ),
      )
      malformed-IsFailing (omega arith)
