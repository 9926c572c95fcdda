-- ===== src/Tests/Leases.antt =====
-- Requests for the leases of service/coordination.py.
use looptimum.Prelude.{
  ℕ, zero, suc, false, some, String, [], ◌∷◌, ◌≡◌, ◌≢◌, refl, ap, sym, ◌∙◌, codes, length, inl,
  eq_iff, lookup, insert,
}
use looptimum.Prelude.Int.{pos}
use looptimum.Float.{integers, integers-IsOrdered}
use looptimum.Values.{Dict}
use looptimum.Service.Leases.{
  Lease, LeaseRequest, Waited, still_waiting, inside, Round, waiting, idle, trying, read_time,
  update, retry, Coordination, Reach, start, later, pick, ask, grant, try_acquire,
  lease_duration_seconds, effective_timeout, acquire_campaign_lease,
}
use looptimum.Service.Leases.Exclusive.{HaveOwnTokens, mutual_exclusion}
use looptimum.Service.Leases.Waiting.{Explained, acquire_campaign_lease_lem}

abbrev stars : ℕ → String
stars zero = String.[]
stars (suc n) = String.◌∷◌ "*" (stars n)

length-stars : (n : ℕ) → length (codes (stars n)) ≡ n
length-stars zero = refl
length-stars (suc n) = ap suc (length-stars n)

abbrev requests : ℕ → LeaseRequest integers.F
unfolding integers
requests i = record {
  campaign_id = "wing";
  owner_token = stars i;
  timeout_seconds = some (pos 5);
  fail_fast = false;
}

requests-HaveOwnTokens : HaveOwnTokens integers requests
unfolding requests
requests-HaveOwnTokens i j h =
    sym (length-stars i) ∙ ap (λ s. length (codes s)) ((eq_iff _ _).0 h) ∙ length-stars j

abbrev thirty : integers.F
unfolding integers
thirty = pos 30

abbrev zero_time : integers.F
unfolding integers
zero_time = pos 0

abbrev ten_past : integers.F
unfolding integers
ten_past = pos 10

abbrev sixty : integers.F
unfolding integers
sixty = pos 60

abbrev first_row : Dict (Lease integers.F)
unfolding integers
first_row =
    ("wing", record { owner_token = stars 0; acquired_at = pos 0; expires_at = pos 60 }) ∷ []

abbrev contended : Coordination integers.F
unfolding integers
contended = record {
  table = first_row;
  clock = pos 10;
  phase =
      update
        (update
          (update
            (update
              (update (update (λ _. idle) 0 (waiting (pos 5) (pos 60))) 0
                (trying (pos 5) (pos 60) (pos 0)))
              0 (inside (pos 60)))
            1 (waiting (pos 15) (pos 60)))
          1 (trying (pos 15) (pos 60) (pos 10)))
        1 (waiting (pos 15) (pos 60));
}

contended-Reach : Reach integers thirty requests [] zero_time contended
unfolding integers requests contended first_row lease_duration_seconds effective_timeout try_acquire
    lookup insert
contended-Reach =
    later
      (later
        (later
          (later
            (later (later start (pick 0 {now = pos 0} refl (ask (pos 0) refl)))
              (pick 0 {now = pos 0} refl (read_time refl)))
            (pick 0 {now = pos 0} refl (grant refl)))
          (pick 1 {now = pos 10} refl (ask (pos 10) refl)))
        (pick 1 {now = pos 10} refl (read_time refl)))
      (pick 1 {now = pos 10} refl (retry (pos 11) refl refl))

mutual_exclusion_example : ◌≡◌ {A = ℕ} 0 0
unfolding integers requests contended sixty
mutual_exclusion_example =
    mutual_exclusion integers integers-IsOrdered thirty requests requests-HaveOwnTokens
      contended-Reach 0 0 sixty sixty refl refl refl refl refl

abbrev round : Round integers.F
unfolding integers
round = record { now = pos 10; table = first_row; is_fault = false; monotonic = pos 5 }

acquire_campaign_lease_lem_example :
    (w : Waited integers.F) × (acquire_campaign_lease integers thirty
        (requests 1)
        zero_time
        (round ∷ [])
      ≡ some w)
    × (w ≢ still_waiting)
    × Explained integers
        (requests 1)
        (integers.add zero_time (effective_timeout integers thirty (requests 1)))
        sixty
        (round ∷ [])
        w
unfolding integers requests round thirty sixty zero_time lease_duration_seconds effective_timeout
acquire_campaign_lease_lem_example =
    acquire_campaign_lease_lem integers thirty (requests 1) zero_time sixty (round ∷ []) round refl
      (inl refl) refl
