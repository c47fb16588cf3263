-- ===== src/Limits/RateLimiter/Window.antt =====
-- The calls of a tenant that pass in a minute: an arbitrary sequence of calls, with the log of those
-- that passed.
use multi_agent_ai_system.Prelude.{
  ℕ, ◌+◌, ◌==◌, ◌≤◌, ◌<◌, leb, Bool, false, Bool-cases, List, [], ◌∷◌, ◌++◌, length, select, map,
  ◌≡◌, refl, sym, ap, ◌∙◌, inl, inr, arith, if◌then◌else◌, ==_iff, subst,
}
use multi_agent_ai_system.Core.Exceptions.{Result, ok, err}
use multi_agent_ai_system.Limits.RateLimiter.{
  RateLimiter, in_window, with_requests, check_rate_limit,
}

pub record Call : Type 0 where
  pub now : ℕ
  pub tenant_id : ℕ

abbrev pub times : ℕ → List Call → List ℕ
times tenant_id calls = map (λ c. c.now) (select (λ c. c.tenant_id == tenant_id) calls)

-- The log after a call: a call that passes is added to it.
abbrev passed : Result (Unit {0}) → Call → List Call → List Call
passed (ok u) c log = log ++ c ∷ []
passed (err e) c log = log

-- The limiter and the log after the calls of a sequence.
abbrev pub run : List Call → RateLimiter → List Call → RateLimiter × List Call
run [] limiter log = (limiter, log)
run (c ∷ cs) limiter log =
    let (r, limiter') = check_rate_limit c.now c.tenant_id limiter in
    run cs limiter' (passed r c log)

-- The times of a sequence do not go back, and the last is the one given.
abbrev pub Ordered : ℕ → List Call → ℕ → Type 0
Ordered from [] last = from ≤ last
Ordered from (c ∷ cs) last = (from ≤ c.now) × Ordered c.now cs last

abbrev fresh : Bool → ℕ → List ℕ → List ℕ
fresh b x rest = if b then x ∷ rest else rest

-- A later window keeps no more.
select_later :
    (early late : ℕ) (xs : List ℕ)
    → early ≤ late
    → select (in_window late) (select (in_window early) xs) ≡ select (in_window late) xs
select_later early late [] h = refl
select_later early late (x ∷ xs) h = elim (Bool-cases (in_window early x)) [
  | inl kept ↦
      let rest = select_later early late xs h in
      elim (Bool-cases (in_window late x)) [
        | inl more ↦ rw (kept, more, rest) refl
        | inr less ↦ rw (kept, less, rest) refl
      ]
  | inr gone ↦
      let also : in_window late x ≡ false = ground arith in
      rw (gone, also) (select_later early late xs h)
]

select-append : (p : ℕ → Bool) (xs ys : List ℕ) → select p (xs ++ ys) ≡ select p xs ++ select p ys
select-append p [] ys = refl
select-append p (x ∷ xs) ys = elim (Bool-cases (p x)) [
  | inl e ↦ rw (e, select-append p xs ys) refl
  | inr e ↦ rw (e, select-append p xs ys) refl
]

length-select : (p : ℕ → Bool) (xs : List ℕ) → length (select p xs) ≤ length xs
length-select p [] = ground arith
length-select p (x ∷ xs) =
    let h = length-select p xs in
    elim (Bool-cases (p x)) [ inl e ↦ rw e (ground arith) | inr e ↦ rw e (ground arith) ]

length-append : (xs ys : List ℕ) → length (xs ++ ys) ≡ length xs + length ys
length-append [] ys = ground arith
length-append (x ∷ xs) ys = let h = length-append xs ys in ground arith

times-append :
    (t : ℕ) (c : Call) (log : List Call) → times t (log ++ c ∷ []) ≡ times t log ++ times t (c ∷ [])
times-append t c [] = refl
times-append t c (d ∷ log) = elim (Bool-cases (d.tenant_id == t)) [
  | inl e ↦ rw (e, times-append t c log) refl
  | inr e ↦ rw (e, times-append t c log) refl
]

-- In the window the limiter has the times of the log, and it has no more than the limit.
record Agrees (limit now : ℕ) (limiter : RateLimiter) (log : List Call) : Type 0 where
  same_limit : limiter.requests_per_minute ≡ limit
  same_times :
      (t : ℕ)
      → select (in_window now) (times t log) ≡ select (in_window now) (limiter.tenant_requests t)
  bounded : (t : ℕ) → length (limiter.tenant_requests t) ≤ limit

module _ (limit early late : ℕ) (h : early ≤ late) (limiter : RateLimiter) (log : List Call) where
  -- The log and the limiter also agree on a later window.
  moved_on :
      (xs ys : List ℕ)
      → select (in_window early) xs ≡ select (in_window early) ys
      → select (in_window late) xs ≡ select (in_window late) ys
  moved_on xs ys e =
      sym (select_later early late xs h)
      ∙ ap (select (in_window late)) e
      ∙ select_later early late ys h

  idle :
      (xs ys : List ℕ)
      → select (in_window early) xs ≡ select (in_window early) ys
      → select (in_window late) xs ≡ select (in_window late) (select (in_window late) ys)
  idle xs ys e = moved_on xs ys e ∙ sym (select_later late late ys (ground arith))

append_nil : (xs : List ℕ) → xs ++ [] ≡ xs
append_nil [] = refl
append_nil (x ∷ xs) = rw (append_nil xs) refl

module _ (limit early : ℕ) (c : Call) (limiter : RateLimiter) (log : List Call) (h : early ≤ c.now)
    (a : Agrees limit early limiter log) where
  abbrev kept : List ℕ
  kept = select (in_window c.now) (limiter.tenant_requests c.tenant_id)

  kept_bounded : length kept ≤ limit
  kept_bounded =
      let b = a.bounded c.tenant_id in
      let k = length-select (in_window c.now) (limiter.tenant_requests c.tenant_id) in ground arith

  refused-Agrees : Agrees limit c.now (with_requests limiter c.tenant_id kept) log
  refused-Agrees = record {
    same_limit = a.same_limit;
    same_times = λ t. elim (Bool-cases (t == c.tenant_id)) [
      | inl same ↦
          let e : t ≡ c.tenant_id = (==_iff t c.tenant_id).0 same in
          rw same (
            subst (λ u. select (in_window c.now) (times u log) ≡ select (in_window c.now) kept)
              (sym e) (idle limit early c.now h limiter log _ _ (a.same_times c.tenant_id)))
      | inr other ↦ rw other (moved_on limit early c.now h limiter log _ _ (a.same_times t))
    ];
    bounded = λ t. elim (Bool-cases (t == c.tenant_id)) [
      | inl same ↦ rw same kept_bounded
      | inr other ↦ rw other (a.bounded t)
    ];
  }

  own_times :
      (t : ℕ)
      → t ≡ c.tenant_id
      → select (in_window c.now) (times t (log ++ c ∷ []))
        ≡ select (in_window c.now) (kept ++ c.now ∷ [])
  own_times t same =
      let mine : times t (c ∷ []) ≡ c.now ∷ [] =
        rw (same, (==_iff c.tenant_id c.tenant_id).1 refl) refl in
      rw
        (
          times-append t c log,
          mine,
          select-append (in_window c.now) (times t log) (c.now ∷ []),
          select-append (in_window c.now) kept (c.now ∷ []),
          same,
          idle limit early c.now h limiter log _ _ (a.same_times c.tenant_id),
        )
        refl

  other_times :
      (t : ℕ)
      → (t == c.tenant_id) ≡ false
      → select (in_window c.now) (times t (log ++ c ∷ []))
        ≡ select (in_window c.now) (limiter.tenant_requests t)
  other_times t other =
      let flipped : (c.tenant_id == t) ≡ false = ground arith in
      let none_added : times t (c ∷ []) ≡ [] = rw flipped refl in
      rw (times-append t c log, none_added, append_nil (times t log))
        (moved_on limit early c.now h limiter log _ _ (a.same_times t))

  passed-Agrees :
      length kept < limit
      → Agrees limit c.now (with_requests limiter c.tenant_id (kept ++ c.now ∷ [])) (log ++ c ∷ [])
  passed-Agrees room = record {
    same_limit = a.same_limit;
    same_times = λ t. elim (Bool-cases (t == c.tenant_id)) [
      | inl same ↦ rw same (own_times t ((==_iff t c.tenant_id).0 same))
      | inr other ↦ rw other (other_times t other)
    ];
    bounded = λ t. elim (Bool-cases (t == c.tenant_id)) [
      | inl same ↦
          let k = length-append kept (c.now ∷ []) in
          rw (same, length-append kept (c.now ∷ [])) (ground arith)
      | inr other ↦ rw other (a.bounded t)
    ];
  }

  call-Agrees :
      let o = check_rate_limit c.now c.tenant_id limiter in
      Agrees limit c.now o.1 (passed o.0 c log)
  unfolding check_rate_limit
  call-Agrees = elim (Bool-cases (leb limiter.requests_per_minute (length kept))) [
    | inl full ↦ rw full refused-Agrees
    | inr free ↦
        let room : length kept < limit = let l = a.same_limit in ground arith in
        rw free (passed-Agrees room)
  ]

counted :
    (limit early late : ℕ) (limiter : RateLimiter) (log : List Call) (t : ℕ)
    → early ≤ late
    → Agrees limit early limiter log
    → length (select (in_window late) (times t log)) ≤ limit
counted limit early late limiter log t h a =
    let b = a.bounded t in
    let k = length-select (in_window late) (limiter.tenant_requests t) in
    rw (moved_on limit early late h limiter log _ _ (a.same_times t)) (ground arith)

run_counted :
    (limit early late : ℕ) (cs : List Call) (limiter : RateLimiter) (log : List Call) (t : ℕ)
    → Ordered early cs late
    → Agrees limit early limiter log
    → length (select (in_window late) (times t (run cs limiter log).1)) ≤ limit
run_counted limit early late [] limiter log t o a = counted limit early late limiter log t o a
run_counted limit early late (c ∷ cs) limiter log t o a =
    run_counted limit c.now late cs _ _ t o.1 (call-Agrees limit early c limiter log o.0 a)

abbrev pub new_limiter : ℕ → RateLimiter
new_limiter limit = record { requests_per_minute = limit; tenant_requests = λ _. [] }

-- Whatever calls are made of a new limiter, at times that do not go back, at their end no tenant has
-- more calls that passed in the last minute than the limit.
pub run-bounded :
    (limit last : ℕ) (calls : List Call) (tenant_id : ℕ)
    → Ordered 0 calls last
    → length (select (in_window last) (times tenant_id (run calls (new_limiter limit) []).1))
      ≤ limit
run-bounded limit last calls tenant_id o =
    run_counted limit 0 last calls (new_limiter limit) [] tenant_id o
      (record { same_limit = refl; same_times = λ t. refl; bounded = λ t. ground arith })
