-- ===== src/Service/Leases.antt =====
-- service/coordination.py, SQLiteLeaseCoordinationBackend: the lease table, one row for each
-- campaign, and the requests that take and return leases. A transaction of SQLite is one step; the
-- clock and the length of the waits are chosen by the environment. Tokens are those of `uuid4`.
pub mod Exclusive
pub mod Waiting
use looptimum.Prelude.{
  ℕ, Bool, true, false, not, ◌&&◌, Option, none, some, String, str_eq, List, [], ◌∷◌, ◌≡◌, lookup,
  insert, keep, or_else, if◌then◌else◌, ◌==◌,
}
use looptimum.Prelude.Maybe.{◌>>=◌}
use looptimum.Float.{Float}
use looptimum.Values.{Dict}

pub record Lease (F : Type 0) : Type 0 where
  pub owner_token : String
  pub acquired_at : F
  pub expires_at : F

-- One request of the service: its campaign, its token, and what it says of waiting.
pub record LeaseRequest (F : Type 0) : Type 0 where
  pub campaign_id : String
  pub owner_token : String
  pub timeout_seconds : Option F
  pub fail_fast : Bool

-- Where a request stands in `acquire_campaign_lease`.
pub data Phase (F : Type 0) : Type 0 where
  idle : Phase F
  waiting : (deadline duration : F) → Phase F
  -- with the time that was read before the transaction
  trying : (deadline duration read : F) → Phase F
  inside : (expires_at : F) → Phase F
  left refused : Phase F

module _ (fl : Float) where
  unfoldable pub lease_duration_seconds : fl.F → Option fl.F → Option fl.F
  lease_duration_seconds lease_ttl_seconds timeout_seconds =
      let timeout = or_else timeout_seconds lease_ttl_seconds in
      let longer = if fl.ltb lease_ttl_seconds timeout then timeout else lease_ttl_seconds in
      let duration = fl.add longer lease_ttl_seconds in
      if fl.is_finite timeout && not (fl.ltb timeout fl.zero) && fl.is_finite duration
      then some duration
      else none

  unfoldable pub effective_timeout : fl.F → LeaseRequest fl.F → fl.F
  effective_timeout lease_ttl_seconds r =
      if r.fail_fast then fl.zero else or_else r.timeout_seconds lease_ttl_seconds

  abbrev pub new_lease : String → fl.F → fl.F → Lease fl.F
  new_lease owner_token now duration = record {
    owner_token = owner_token;
    acquired_at = now;
    expires_at = fl.add now duration;
  }

  -- Whether the lease is granted, and the table after the transaction.
  unfoldable pub try_acquire :
      Dict (Lease fl.F) → String → String → (now duration : fl.F) → Bool × Dict (Lease fl.F)
  unfolding lookup insert
  try_acquire table campaign_id owner_token now duration =
      let granted = insert campaign_id (new_lease owner_token now duration) table in
      elim (lookup campaign_id table) [
        | none ↦ (true, granted)
        | some row ↦ if fl.leb row.expires_at now then (true, granted) else (false, table)
      ]

  -- The row goes only if the campaign's lease is still that of the token.
  unfoldable pub release : Dict (Lease fl.F) → String → String → Dict (Lease fl.F)
  release table campaign_id owner_token =
      keep (λ row. not (str_eq row.0 campaign_id && str_eq row.1.owner_token owner_token)) table

-- What one round of the loop of `acquire_campaign_lease` meets: the time, the table, whether the
-- transaction raises an error of the database, and the monotonic clock after a refusal.
pub record Round (F : Type 0) : Type 0 where
  pub now : F
  pub table : Dict (Lease F)
  pub is_fault : Bool
  pub monotonic : F

pub data Waited (F : Type 0) : Type 0 where
  granted : (table : Dict (Lease F)) → Waited F
  unavailable : Waited F
  -- CoordinationStateError
  state_error : Waited F
  still_waiting : Waited F

module _ (fl : Float) (campaign_id owner_token : String) (deadline duration : fl.F) where
  unfoldable pub acquire_loop : List (Round fl.F) → Waited fl.F
  unfolding try_acquire
  acquire_loop [] = still_waiting
  acquire_loop (r ∷ rounds) =
      let more = acquire_loop rounds in
      let (done, after) = try_acquire fl r.table campaign_id owner_token r.now duration in
      if r.is_fault
      then state_error
      else if done
      then granted after
      else if fl.leb deadline r.monotonic
      then unavailable
      else more

module _ (fl : Float) where
  -- From the reading `started` of the monotonic clock on; `none` is a refused timeout.
  unfoldable pub acquire_campaign_lease :
      fl.F → LeaseRequest fl.F → fl.F → List (Round fl.F) → Option (Waited fl.F)
  unfolding lease_duration_seconds effective_timeout acquire_loop
  acquire_campaign_lease lease_ttl_seconds r started rounds = do
    duration ← lease_duration_seconds fl lease_ttl_seconds r.timeout_seconds
    let deadline = fl.add started (effective_timeout fl lease_ttl_seconds r)
    some (acquire_loop fl r.campaign_id r.owner_token deadline duration rounds)

pub record Coordination (F : Type 0) : Type 0 where
  pub table : Dict (Lease F)
  pub clock : F
  pub phase : ℕ → Phase F

abbrev pub update : {A : Type 0} → (ℕ → A) → ℕ → A → ℕ → A
update f i a j = if i == j then a else f j

module _ (fl : Float) (lease_ttl_seconds : fl.F) where
  -- What a request does at the time `now`, and the table after it. The time of a transaction is read
  -- before it, and other requests may move in between.
  pub data Move (r : LeaseRequest fl.F) (table : Dict (Lease fl.F)) (now : fl.F)
      : Phase fl.F → Phase fl.F → Dict (Lease fl.F) → Type 0 where
    ask :
        {duration : fl.F} (started : fl.F)
        → lease_duration_seconds fl lease_ttl_seconds r.timeout_seconds ≡ some duration
        → Move r table now idle
            (waiting (fl.add started (effective_timeout fl lease_ttl_seconds r)) duration)
            table
    read_time :
        {deadline duration : fl.F}
        → fl.is_nan now ≡ false
        → Move r table now (waiting deadline duration) (trying deadline duration now) table
    grant :
        {deadline duration read : fl.F} {after : Dict (Lease fl.F)}
        → try_acquire fl table r.campaign_id r.owner_token read duration ≡ (true, after)
        → Move r table now (trying deadline duration read) (inside (fl.add read duration)) after
    retry :
        {deadline duration read : fl.F} {after : Dict (Lease fl.F)} (monotonic : fl.F)
        → try_acquire fl table r.campaign_id r.owner_token read duration ≡ (false, after)
        → fl.leb deadline monotonic ≡ false
        → Move r table now (trying deadline duration read) (waiting deadline duration) after
    give_up :
        {deadline duration read : fl.F} {after : Dict (Lease fl.F)} (monotonic : fl.F)
        → try_acquire fl table r.campaign_id r.owner_token read duration ≡ (false, after)
        → fl.leb deadline monotonic ≡ true
        → Move r table now (trying deadline duration read) refused after
    leave :
        {expires_at : fl.F}
        → Move r table now (inside expires_at) left (release fl table r.campaign_id r.owner_token)
    -- An error of the database, which is rolled back, or the end of the process.
    acquire_fault :
        {deadline duration read : fl.F}
        → Move r table now (trying deadline duration read) refused table
    stop : {deadline duration : fl.F} → Move r table now (waiting deadline duration) refused table
    release_fault : {expires_at : fl.F} → Move r table now (inside expires_at) left table

  module _ (requests : ℕ → LeaseRequest fl.F) where
    -- One request moves, at a time that is not before the last one.
    pub data Step (s : Coordination fl.F) : Coordination fl.F → Type 0 where
      pick :
          (i : ℕ) {now : fl.F} {p : Phase fl.F} {table : Dict (Lease fl.F)}
          → fl.leb s.clock now ≡ true
          → Move (requests i) s.table now (s.phase i) p table
          → Step s (record { table = table; clock = now; phase = update s.phase i p })

    -- What happens from the start of the service on, with whatever table the file holds.
    pub data Reach (table : Dict (Lease fl.F)) (clock : fl.F) : Coordination fl.F → Type 0 where
      start : Reach table clock (record { table = table; clock = clock; phase = λ _. idle })
      later : {s t : Coordination fl.F} → Reach table clock s → Step s t → Reach table clock t
