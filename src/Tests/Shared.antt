-- ===== src/Tests/Shared.antt =====
-- The shared modules on the small campaign.
use looptimum.Prelude.{
  ℕ, Bool, ◌<◌, subst, eq_iff, ◌⊎◌, true, false, none, some, String, List, [], ◌∷◌, ◌≡◌, ◌≢◌, refl,
  arith, All, str_eq, text_mem, lookup, if◌then◌else◌,
}
use looptimum.Prelude.Maybe.{some_injective}
use looptimum.Prelude.Exec.{ok, err}
use looptimum.Prelude.Int.{ℤ, pos}
use looptimum.Float.{integers, integers-IsOrdered}
use looptimum.Values.{Value, int, float, str, Dict}
use looptimum.Objectives.{objective_names}
use looptimum.Objectives.Order.{best_rank_key, BestRecord, min_by, key_lt}
use looptimum.Space.{Param, is_parameter_active, controllers}
use looptimum.Space.Order.{
  visit_each, visit, enter, leave, names_of, find_param, out_of_fuel, ordered_parameters,
  canonicalize_conditional_params,
}
use looptimum.Space.Order.Bounded.{ordered_parameters-ne-out_of_fuel}
use looptimum.Space.Order.Sorted.{IsSorted, behind, ordered_parameters-IsSorted}
use looptimum.Space.Order.Acyclic.{IsKnown, IsRanked, ordered_parameters_total}
use looptimum.Space.Order.Active.{IsActiveIn, canonicalize_conditional_params-IsActive}
use looptimum.Contract.{Status, is_ok, Report, normalize_ingest_payload}
use looptimum.Contract.Sound.{Fits, HasReason, normalize_ingest_payload-Fits}
use looptimum.Trials.{Observation, State, update_best}
use looptimum.Trials.Best.Returns.{CanRank, update_best_total}
use looptimum.Trials.Best.{HasNumbers, Recorded, update_best-IsBest}
use looptimum.Trials.Hoare.{After}
use looptimum.Trials.Ingest.{ingest_done}
use looptimum.Trials.Effects.{require_matching_lease_token}
use looptimum.Trials.Refused.{
  SameFiles, Repeats, LeaseFits, require_matching_lease_token-LeaseFits, ingest_done-Repeats,
}
use looptimum.Tests.{cfg, env, kind, deep, space, flat, no_files, payload, waiting}

ordered_parameters-ne-out_of_fuel_example : ordered_parameters space ≢ err out_of_fuel
ordered_parameters-ne-out_of_fuel_example = ordered_parameters-ne-out_of_fuel space

abbrev ordered : List (Param integers.F)
ordered = kind ∷ deep ∷ []

space_ordered : ordered_parameters space ≡ ok ordered
unfolding deep kind integers ordered_parameters visit_each visit lookup find_param enter leave
space_ordered = refl

ordered_parameters-IsSorted_example :
    IsSorted [] ordered
    × All (λ p. find_param p.name space ≡ some p) ordered
    × All (λ n. text_mem n (behind [] ordered) ≡ true) (names_of space)
ordered_parameters-IsSorted_example = ordered_parameters-IsSorted space ordered space_ordered

-- The conditioned parameter above the other one.
abbrev rank : String → ℕ
rank name = if str_eq name "depth" then 1 else 0

space-IsRanked : IsRanked rank space
unfolding integers find_param deep kind
space-IsRanked p name e = split (str_eq "depth" name) refl (str_eq "kind" name) e
  where
    Ranked : Param integers.F → String → Type 0
    Ranked q n = All (λ c. IsKnown space c × (rank c < rank n)) (controllers q)

    split :
        (a : Bool)
        → str_eq "depth" name ≡ a
        → (b : Bool) → (if a then some deep else if b then some kind else none) ≡ some p
        → Ranked p name
    split true f b e =
        subst (λ n. Ranked p n) ((eq_iff "depth" name).0 f)
          (subst (λ q. Ranked q "depth") (some_injective deep p e) ((refl, omega arith), tt))
    split false f true e = subst (λ q. Ranked q name) (some_injective kind p e) tt
    split false f false e = cc

ordered_parameters_total_example :
    (out : List (Param integers.F)) × (ordered_parameters space ≡ ok out)
unfolding integers find_param deep kind
ordered_parameters_total_example =
    ordered_parameters_total rank space space-IsRanked (refl, (refl, tt))

-- `depth` does not count while `kind` is "flat".
abbrev given : Dict (Value integers.F)
unfolding integers
given = ("depth", int (pos 3)) ∷ ("kind", str "flat") ∷ []

given_canonical : canonicalize_conditional_params integers given space ≡ ok flat
unfolding integers given flat deep kind canonicalize_conditional_params visit_each visit find_param
    enter leave is_parameter_active
given_canonical = refl

canonicalize_conditional_params-IsActive_example :
    (lookup "kind" given ≡ some (str "flat")) × IsActiveIn integers given space "kind"
unfolding integers flat deep kind text_mem lookup
canonicalize_conditional_params-IsActive_example =
    canonicalize_conditional_params-IsActive integers given space given_canonical "kind"
      (str "flat") refl refl

abbrev report : Report integers.F
unfolding integers
report = record {
  trial_id = 1;
  params = ("kind", str "flat") ∷ [];
  objectives = ("loss", float (pos 3)) ∷ [];
  status = Status.ok;
  penalty_objective = none;
  terminal_reason = none;
}

payload_normalized : normalize_ingest_payload integers payload cfg ≡ some report
unfolding integers payload cfg report normalize_ingest_payload
payload_normalized = refl

normalize_ingest_payload-Fits_example :
    (report.trial_id ≡ payload.trial_id)
    × (report.params ≡ payload.params)
    × Fits integers
        (objective_names cfg)
        (is_ok report.status)
        report.objectives
        report.penalty_objective
    × HasReason integers (is_ok report.status) report.terminal_reason
normalize_ingest_payload-Fits_example =
    normalize_ingest_payload-Fits integers payload cfg payload_normalized

require_matching_lease_token-LeaseFits_example :
    After
      (λ _ v. (v ≡ no_files) × LeaseFits integers env waiting (some "t0"))
      (λ v. (v ≡ no_files) × ¬ (LeaseFits integers env waiting (some "t0")))
      (require_matching_lease_token integers env waiting (some "t0") no_files)
require_matching_lease_token-LeaseFits_example =
    require_matching_lease_token-LeaseFits integers env no_files waiting (some "t0")

abbrev seen : ℕ → ℕ → Observation integers.F
unfolding integers
seen trial_id loss = record {
  trial_id = trial_id;
  params = ("kind", str "flat") ∷ [];
  objectives = ("loss", float (pos loss)) ∷ [];
  status = Status.ok;
  terminal_reason = none;
  penalty_objective = none;
  artifact_path = none;
  suggested_at = none;
  completed_at = pos 5;
  last_heartbeat_at = none;
  heartbeat_count = none;
  heartbeat_note = none;
  heartbeat_meta = none;
  lease_token = none;
}

abbrev observed : State integers.F
unfolding integers seen
observed = record {
  schema_version = none;
  upgrade_pending = false;
  created_at = pos 0;
  seed = none;
  observations = seen 1 3 ∷ seen 2 2 ∷ [];
  pending = [];
  next_trial_id = 3;
  best = none;
}

ingest_done-Repeats_example :
    SameFiles no_files (ingest_done integers env space report observed no_files).1
    × After
        (λ _ _. Repeats integers env space observed report)
        (λ _. Unit)
        (ingest_done integers env space report observed no_files)
ingest_done-Repeats_example = ingest_done-Repeats integers env space report observed no_files

abbrev with_best : State integers.F
unfolding integers observed
with_best = record observed {
  best = some (record {
    trial_id = 2;
    objective_name = "loss";
    objective_value = pos 2;
    updated_at = pos 9;
    policy = none;
  });
}

abbrev now : integers.F
unfolding integers
now = pos 9

best_updated : update_best integers cfg now observed ≡ some with_best
unfolding integers cfg now observed with_best seen update_best min_by key_lt
best_updated = refl

whole_numbers : (o : Observation integers.F) → HasNumbers integers cfg o
unfolding integers
whole_numbers o k h = (refl, all k.lexicographic)
  where
    all : (xs : List ℤ) → All (λ _. false ≡ false) xs
    all [] = tt
    all (x ∷ xs) = (refl, all xs)

update_best-IsBest_example :
    (with_best.observations ≡ observed.observations)
    × (with_best.pending ≡ observed.pending)
    × (((with_best.best ≡ none) × All (λ o. is_ok o.status ≡ false) observed.observations)
        ⊎ ((b : BestRecord integers.F) × (with_best.best ≡ some b)
            × Recorded integers cfg observed.observations b))
unfolding observed seen integers
update_best-IsBest_example =
    update_best-IsBest integers cfg integers-IsOrdered now observed
      (whole_numbers (seen 1 3), (whole_numbers (seen 2 2), tt)) best_updated

ranks_each : All (CanRank integers cfg) observed.observations
unfolding integers observed seen cfg best_rank_key
ranks_each = (λ _. (_, refl), ((λ _. (_, refl)), tt))

update_best_total_example :
    (t : State integers.F) × (update_best integers cfg now observed ≡ some t)
update_best_total_example = update_best_total integers cfg now observed ranks_each
