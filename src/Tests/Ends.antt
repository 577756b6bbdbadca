-- ===== src/Tests/Ends.antt =====
-- Two requests under way: one has the gate, and one waits for it.
use remote_mfi.Prelude.{◌≡◌, refl, false, true, [], ◌∷◌, All}
use remote_mfi.Errors.{ok}
use remote_mfi.Biz.Cache.{lookup, delete, get}
use remote_mfi.Biz.Gate.{acquire, new_chip_gate}
use remote_mfi.Biz.Service.{look_up, check_request}
use remote_mfi.Biz.Interleaving.{
  System, Reach, start, waiting, locked, here, next, act, arrive, first_miss, enter,
}
use remote_mfi.Biz.Interleaving.Liveness.{HasEnded, Serves, Reach-ends}
use remote_mfi.Tests.Biz.{simulated, challenge}

abbrev under_way : System
under_way = record {
  shared = record {
    gate = record { taken = true; holder = "id"; acquired_at = 10 };
    cache = [];
    clock = 10;
    calls = [];
  };
  threads = waiting "id" challenge challenge 10 ∷ locked "id" challenge challenge 0 ∷ [];
}

under_way-Reach : Reach simulated (start 10) under_way
unfolding check_request look_up get lookup delete start acquire new_chip_gate
under_way-Reach =
    let first = locked "id" challenge challenge 0 ∷ [] in
    next
      (next
        (next
          (next (next here (arrive "id" challenge))
            (act [] [] refl (first_miss challenge refl refl)))
          (act [] [] refl (enter refl)))
        (arrive "id" challenge))
      (act [] first refl (first_miss challenge refl refl))

Reach-ends_example :
    (y : System) × Serves simulated (λ challenge. ok (9 ∷ challenge)) under_way y
    × All HasEnded y.threads
    × (y.shared.gate.taken ≡ false)
Reach-ends_example = Reach-ends simulated (λ challenge. ok (9 ∷ challenge)) 10 under_way-Reach
