-- ===== src/Service/Leases/Waiting.antt =====
-- The loop of acquire_campaign_lease in service/coordination.py.
use looptimum.Prelude.{
  Bool, true, false, Option, none, some, String, List, [], ◌∷◌, ◌≡◌, ◌≢◌, refl, ap, subst, inl, inr,
  All, Among, lookup, if◌then◌else◌, Bool-cases, arith,
}
use looptimum.Float.{Float}
use looptimum.Values.{Dict}
use looptimum.Service.Leases.{
  Lease, LeaseRequest, try_acquire, lease_duration_seconds, effective_timeout, Round, Waited,
  granted, unavailable, state_error, still_waiting, acquire_loop, acquire_campaign_lease,
}
use looptimum.Service.Leases.Exclusive.{Holds, granted-Holds}

module _ (fl : Float) where
  -- The campaign has a lease at that time, and it has not expired.
  pub record IsTaken (table : Dict (Lease fl.F)) (campaign_id : String) (now : fl.F) : Type 0 where
    pub lease : Lease fl.F
    pub row : lookup campaign_id table ≡ some lease
    pub live : fl.leb lease.expires_at now ≡ false

  module _ (table : Dict (Lease fl.F)) (c t : String) (now duration : fl.F) where
    pub refused-IsTaken : (try_acquire fl table c t now duration).0 ≡ false → IsTaken table c now
    unfolding try_acquire
    refused-IsTaken h = go (lookup c table) refl
      where
        go : (found : Option (Lease fl.F)) → lookup c table ≡ found → IsTaken table c now
        go none e = absurd (ground arith)
        go (some row) e = record { lease = row; row = e; live = ground arith }

  module _ (r : LeaseRequest fl.F) (deadline duration : fl.F) where
    abbrev TakenAt : Round fl.F → Type 0
    TakenAt x = IsTaken x.table r.campaign_id x.now

    -- What each outcome of the loop says of the rounds that it had.
    abbrev pub Explained : List (Round fl.F) → Waited fl.F → Type 0
    Explained rounds (granted after) =
        (x : Round fl.F) × Among x rounds
        × Holds fl after r.campaign_id r.owner_token (fl.add x.now duration)
    Explained rounds unavailable =
        (x : Round fl.F) × Among x rounds × TakenAt x × (fl.leb deadline x.monotonic ≡ true)
    Explained rounds state_error = (x : Round fl.F) × Among x rounds × (x.is_fault ≡ true)
    Explained rounds still_waiting =
        All (λ x. TakenAt x × (fl.leb deadline x.monotonic ≡ false)) rounds

    Explained-cons :
        (x : Round fl.F) (rounds : List (Round fl.F)) (w : Waited fl.F)
        → TakenAt x
        → fl.leb deadline x.monotonic ≡ false
        → Explained rounds w
        → Explained (x ∷ rounds) w
    Explained-cons x rounds (granted after) taken early (y, among, holds) = (y, inr among, holds)
    Explained-cons x rounds unavailable taken early (y, among, held, late) =
        (y, inr among, held, late)
    Explained-cons x rounds state_error taken early (y, among, fault) = (y, inr among, fault)
    Explained-cons x rounds still_waiting taken early all = ((taken, early), all)

    Explained-fault :
        (x : Round fl.F) (rounds : List (Round fl.F)) (w : Waited fl.F)
        → Explained (x ∷ rounds) w
        → Explained (x ∷ rounds) (if x.is_fault then state_error else w)
    Explained-fault x rounds w h = split x.is_fault refl
      where
        split : (b : Bool) → x.is_fault ≡ b → Explained (x ∷ rounds) (if b then state_error else w)
        split true e = (x, inl refl, e)
        split false e = h

    abbrev loop : List (Round fl.F) → Waited fl.F
    loop = acquire_loop fl r.campaign_id r.owner_token deadline duration

    acquire_loop-Explained : (rounds : List (Round fl.F)) → Explained rounds (loop rounds)
    unfolding acquire_loop
    acquire_loop-Explained [] = tt
    acquire_loop-Explained (x ∷ rounds) = Explained-fault x rounds _ (elim (Bool-cases tried.0) [
      | inl done ↦ rw done (
        x,
        inl refl,
        granted-Holds fl x.table r.campaign_id r.owner_token x.now duration (pair done),
      )
      | inr busy ↦ rw busy (elim (Bool-cases (fl.leb deadline x.monotonic)) [
        | inl late ↦ rw late (x, inl refl, taken busy, late)
        | inr early ↦ rw early (
            Explained-cons x rounds (loop rounds) (taken busy) early
              (acquire_loop-Explained rounds))
      ])
    ])
      where
        tried : Bool × Dict (Lease fl.F)
        tried = try_acquire fl x.table r.campaign_id r.owner_token x.now duration

        taken : tried.0 ≡ false → TakenAt x
        taken = refused-IsTaken x.table r.campaign_id r.owner_token x.now duration

        pair : tried.0 ≡ true → tried ≡ (true, tried.1)
        pair done = ap (λ b. (b, tried.1)) done

    -- A round at which the deadline has come is not waited for.
    All-late :
        (rounds : List (Round fl.F)) (x : Round fl.F)
        → Among x rounds
        → fl.leb deadline x.monotonic ≡ true
        → ¬ Explained rounds still_waiting
    All-late [] x among late all = absurd among
    All-late (y ∷ rounds) x (inl e) late all =
        ground (arith, ap (λ z. fl.leb deadline z.monotonic) e)
    All-late (y ∷ rounds) x (inr among) late all = All-late rounds x among late all.1

module _ (fl : Float) (ttl : fl.F) (r : LeaseRequest fl.F) where
  -- A request with a lawful timeout whose deadline comes in one of the rounds is answered. If its
  -- lease is granted, the campaign's row is its own in the table after, with the time of one of the
  -- rounds and the duration as its expiry; if it is refused, the campaign had a lease that had not
  -- expired in a round in which the deadline had come; and the error of the database is raised only
  -- if one of the rounds had one.
  pub acquire_campaign_lease_lem :
      (started duration : fl.F) (rounds : List (Round fl.F)) (x : Round fl.F)
      → lease_duration_seconds fl ttl r.timeout_seconds ≡ some duration
      → Among x rounds
      → fl.leb (fl.add started (effective_timeout fl ttl r)) x.monotonic ≡ true
      → (w : Waited fl.F) × (acquire_campaign_lease fl ttl r started rounds ≡ some w)
        × (w ≢ still_waiting)
        × Explained fl r (fl.add started (effective_timeout fl ttl r)) duration rounds w
  unfolding acquire_campaign_lease
  acquire_campaign_lease_lem started duration rounds x e among late = (
    w,
    rw e,
    (λ never.
        All-late fl r deadline duration rounds x among late
          (subst (Explained fl r deadline duration rounds) never explained)),
    explained,
  )
    where
      deadline : fl.F
      deadline = fl.add started (effective_timeout fl ttl r)

      w : Waited fl.F
      w = acquire_loop fl r.campaign_id r.owner_token deadline duration rounds

      explained : Explained fl r deadline duration rounds w
      explained = acquire_loop-Explained fl r deadline duration rounds
