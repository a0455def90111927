-- ===== src/Reconciler/Tests.antt =====
-- Two channels of a platform that can provision by itself, one of which is not ready.
use tclaw.Base.{◌≡◌, ◌++◌, refl, String, true, false, List, [], ◌∷◌, some, none, ok, ◌==◌}
use tclaw.Base.Collections.{Faults}
use tclaw.Config.{Channel}
use tclaw.Config.Samples.{main, dev}
use tclaw.Runtime.{Provisioner, ProvisionResult}
use tclaw.Reconciler.{Accesses, reconcile}
use tclaw.Reconciler.Provisioning.{reconcile-Converges}
use tclaw.Reconciler.Outcomes.{outcome, attempts, AllTold}

abbrev bot : ProvisionResult
bot = record {
  token = "t";
  teardown_state = record { type = "telegram"; raw = "b" };
  platform_state = record { type = "telegram"; raw = "c" };
}

abbrev telegram : Provisioner
telegram = record {
  is_ready = λ name. name == "main";
  can_auto_provision = true;
  provision = λ name purpose. ok bot;
  teardown = λ state. none;
}

abbrev fine : Faults
fine = record { read_ok = true; parse_ok = true; write_ok = true }

abbrev accesses : Channel → Accesses
accesses ch = record { first_read = fine; write = fine; second_read = fine }

only_dev : attempts false (λ type. some telegram) (main ∷ dev ∷ []) ≡ "dev" ∷ []
unfolding outcome
only_dev = refl

reconcile-Converges_example :
    let pass = reconcile false accesses (λ type. some telegram) [] (main ∷ dev ∷ []) in
    (uncalled : List String) × (attempts false (λ type. some telegram) (main ∷ dev ∷ [])
      ≡ pass.1 ++ uncalled)
    × AllTold false (λ type. some telegram) (main ∷ dev ∷ []) uncalled pass.0 pass.2
reconcile-Converges_example =
    reconcile-Converges false accesses (λ type. some telegram) [] (main ∷ dev ∷ [])
      (refl, (refl, tt))
