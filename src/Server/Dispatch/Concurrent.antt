-- ===== src/Server/Dispatch/Concurrent.antt =====
-- Requests that the goroutines of gRPC answer at the same time: their calls interleave.
use database_router.Shared.{
  ℕ, zero, suc, ◌+◌, ◌<◌, ◌≡◌, refl, ap, ◌∙◌, Bool, true, none, some, Option, List, [], ◌∷◌, ◌++◌,
  All, ◌==◌, arith, Bool-cases, inl, inr, if◌then◌else◌,
}
use database_router.Value.{Runtime}
use database_router.Driver.{Driver}
use database_router.Driver.Calls.{Call, Ctx, Handle}
use database_router.Driver.Handles.{still_open, is_open, WellUsed}
use database_router.Driver.Handles.Counts.{
  count, count-is_open, is_open-count, handle_of, Meets, gained, lost, Closes, count-still_open,
  WellUsed-step, sum, sum-at, sum_change,
}
use database_router.Manager.{Manager}
use database_router.Server.Dispatch.{Request, handle}
use database_router.Server.Registry.{new_servers}
use database_router.Server.Dispatch.Balance.{handle-Balanced}
use database_router.Server.Dispatch.Use.{HoldsOpen}
use database_router.Server.Dispatch.Own.{
  may_use, Tidy, Tidy-step, Tidy-earlier, started, handle-Tidy,
}

-- A request with the answers that its calls get, in a world of its own: what the other requests do in
-- between shows in these answers, which nothing restricts.
pub record Job (W : Type 0) : Type 0 where
  pub driver : Driver W
  pub ctx : Ctx
  pub world : W
  pub request : Request

abbrev pub trace_of : {W : Type 0} → Runtime → Manager → Job W → List Call
trace_of rt m job =
    (handle rt (new_servers job.driver rt m) job.ctx (started job.world) job.request).calls

-- The calls of all requests, the latest first, each with the number of its request.
abbrev pub Mixed : Type 0
Mixed = List (ℕ × Call)

abbrev pub calls_of : Mixed → List Call
calls_of [] = []
calls_of ((i, c) ∷ u) = c ∷ calls_of u

abbrev pub of_request : ℕ → Mixed → List Call
of_request i [] = []
of_request i ((k, c) ∷ u) = if k == i then c ∷ of_request i u else of_request i u

-- So far, each of the `n` requests has made the first of its calls, in their order.
abbrev pub Interleaves : {W : Type 0} → Runtime → Manager → ℕ → (ℕ → Job W) → Mixed → Type 0
Interleaves rt m n jobs u =
    All (λ (p : ℕ × Call). p.0 < n) u
    × ((i : ℕ) → i < n → (later : List Call) × (later ++ of_request i u ≡ trace_of rt m (jobs i)))

-- How often a connection is open by requests.
abbrev owned : ℕ → Mixed → Handle → ℕ
owned n u h = sum n (λ i. count h (still_open (of_request i u)))

Meets-mono :
    (P Q : Handle → Bool) (o : Option Handle)
    → ((h : Handle) → P h ≡ true → Q h ≡ true)
    → Meets P o
    → Meets Q o
Meets-mono P Q none f p = tt
Meets-mono P Q (some h) f p = f h p

Closes-mono :
    (c : Call) (own all : List Handle)
    → ((h : Handle) → is_open h own ≡ true → is_open h all ≡ true)
    → Closes c own
    → Closes c all
Closes-mono (Call.sql_close h) own all f o = f h o
Closes-mono _ own all f o = tt

sum_zero : (n : ℕ) (f : ℕ → ℕ) → ((i : ℕ) → i < n → f i ≡ 0) → sum n f ≡ 0
sum_zero zero f z = refl
sum_zero (suc n) f z =
    omega (arith, z n (omega arith), sum_zero n f (λ i b. z i (omega (arith, b))))

module _ (base : List Call) (n : ℕ) where
  abbrev Counted : Mixed → Type 0
  Counted u =
      (h : Handle)
      → count h (still_open (calls_of u ++ base)) ≡ count h (still_open base) + owned n u h

  module _ (u : Mixed) (i : ℕ) (h : Handle) (b : i < n) (counted : Counted u) where
    own-is_open :
        is_open h (still_open (of_request i u)) ≡ true
        → is_open h (still_open (calls_of u ++ base)) ≡ true
    own-is_open o = is_open-count h _ (
        omega (
          arith,
          counted h,
          count-is_open h (still_open (of_request i u)) o,
          sum-at n i (λ k. count h (still_open (of_request k u))) b,
        ))

    may_use-is_open :
        (db : Option Handle)
        → HoldsOpen db base
        → may_use db h (still_open (of_request i u)) ≡ true
        → is_open h (still_open (calls_of u ++ base)) ≡ true
    may_use-is_open none holds o = own-is_open o
    may_use-is_open (some db) holds o = elim (Bool-cases (db == h)) [
      | inl same ↦
          let e : db ≡ h = ground arith in
          is_open-count h _
            (omega (arith, counted h, count-is_open h (still_open base) (rw e at holds)))
      | inr apart ↦ own-is_open (ground arith)
    ]

  -- A call of the request `k` changes what the requests hold as it changes what is open.
  owned-step :
      (k : ℕ) (c : Call) (u : Mixed) (h : Handle)
      → k < n
      → Closes c (still_open (of_request k u))
      → owned n ((k, c) ∷ u) h + lost c h ≡ owned n u h + gained c h
  owned-step k c u h b closes =
      let self : (k == k) ≡ true = ground arith in
      sum_change n k (lost c h) (gained c h) (λ i. count h (still_open (of_request i u)))
        (λ i. count h (still_open (of_request i ((k, c) ∷ u)))) b
        (rw self (count-still_open c (of_request k u) h closes)) (λ j apart. rw apart refl)

  module _ (db : Option Handle) (holds : HoldsOpen db base) (used : WellUsed base) where
    mixed-WellUsed :
        (u : Mixed)
        → All (λ (p : ℕ × Call). p.0 < n) u
        → ((i : ℕ) → i < n → Tidy db (of_request i u))
        → WellUsed (calls_of u ++ base) × Counted u
    unfolding still_open
    mixed-WellUsed [] b tidy = (used, λ h. omega (arith, sum_zero n (λ i. 0) (λ i b. refl)))
    mixed-WellUsed ((k, c) ∷ u) (b, bs) tidy =
        let self : (k == k) ≡ true = ground arith in
        let (uses, closes, _) = Tidy-step db c (of_request k u) (rw self at (tidy k b)) in
        let earlier : (i : ℕ) → i < n → Tidy db (of_request i u) = λ i low.
          elim (Bool-cases (k == i)) [
            | inl same ↦ (Tidy-step db c (of_request i u) (rw same at (tidy i low))).2
            | inr apart ↦ rw apart at (tidy i low)
          ] in
        let (before, counted) = mixed-WellUsed u bs earlier in
        let closes_all : Closes c (still_open (calls_of u ++ base)) =
          Closes-mono c _ _ (λ h. own-is_open u k h b counted) closes in
        (
          WellUsed-step c (calls_of u ++ base)
              (Meets-mono _ _ (handle_of c) (λ h. may_use-is_open u k h b counted db holds) uses)
              before,
          λ h. omega (
            arith,
            counted h,
            owned-step k c u h b closes,
            count-still_open c (calls_of u ++ base) h closes_all,
          ),
        )

module _ {W : Type 0} (rt : Runtime) (m : Manager) (base : List Call)
    (holds : HoldsOpen m.postgres_db base) (used : WellUsed base) (n : ℕ) (jobs : ℕ → Job W)
    (u : Mixed) (mixed : Interleaves rt m n jobs u) where
  tidy : (i : ℕ) → i < n → Tidy m.postgres_db (of_request i u)
  tidy i low =
      let (later, all) = mixed.1 i low in
      let job = jobs i in
      Tidy-earlier m.postgres_db later (of_request i u)
        (rw all (handle-Tidy job.driver rt m job.ctx job.world job.request))

  -- However the calls of requests that are answered at the same time interleave, whatever the drivers
  -- answer to each, and however far each has come: if the connection of the manager is open before them,
  -- no request pings, queries or closes a PostgreSQL connection that is not open at that time.
  pub interleaved-WellUsed : WellUsed (calls_of u ++ base)
  interleaved-WellUsed = (mixed-WellUsed base n m.postgres_db holds used u mixed.0 tidy).0

  -- Once all requests that interleave have been answered, each PostgreSQL connection is open exactly as
  -- often as before them, if that of the manager was open then.
  pub interleaved-Balanced :
      ((i : ℕ) → i < n → of_request i u ≡ trace_of rt m (jobs i))
      → (h : Handle) → count h (still_open (calls_of u ++ base)) ≡ count h (still_open base)
  unfolding still_open
  interleaved-Balanced answered h =
      let closed : (i : ℕ) → i < n → count h (still_open (of_request i u)) ≡ 0 = λ i b.
        let job = jobs i in
        ap (λ calls. count h (still_open calls)) (answered i b)
        ∙ ap (count h) (handle-Balanced job.driver rt m job.ctx (started job.world) job.request) in
      omega (
        arith,
        (mixed-WellUsed base n m.postgres_db holds used u mixed.0 tidy).1 h,
        sum_zero n (λ i. count h (still_open (of_request i u))) closed,
      )
