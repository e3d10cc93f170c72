-- ===== src/Server/Connecting.antt =====
-- When Connect of repo/internal/infrastructure/database/postgres.go gives a pool.
use task.Base.{
  ℕ, zero, suc, ◌+◌, ◌≤◌, ◌<◌, ◌≡◌, ◌↔◌, sym, inl, inr, Bool, true, false, arith, Bool-cases,
  ==_iff, ◌==◌, if◌then◌else◌,
}
use task.Server.Database.{World, connected, connect_from, connect}

-- An attempt at which the pool opens and has_answered.
pub record Ready (w : World) (attempt : ℕ) : Type 0 where
  pub going : w.over_before attempt ≡ false
  pub open_pool : w.opens attempt ≡ true
  pub answered : w.pings attempt ≡ true

abbrev pub has_answered : World → ℕ → Bool
has_answered w attempt = if w.opens attempt then w.pings attempt else false

-- An attempt that fails, with a context that lasts until the next one.
pub record Passed (w : World) (attempt : ℕ) : Type 0 where
  pub going : w.over_before attempt ≡ false
  pub silent : has_answered w attempt ≡ false
  pub waited : w.over_waiting attempt ≡ false

abbrev pub FirstReady : World → (from n : ℕ) → Type 0
FirstReady w from n = Ready w n × ((m : ℕ) → from ≤ m → m < n → Passed w m)

module _ (w : World) where
  connect_from-stop :
      (left a n : ℕ)
      → connect_from w left a ≡ connected n
      → (a ≤ n) × (n < a + left) × FirstReady w a n
  unfolding connect_from
  connect_from-stop zero a n h = cc
  connect_from-stop (suc left) a n h = elim (Bool-cases (w.over_before a)) [
    | inl over ↦ absurd (ground arith)
    | inr going ↦ elim (Bool-cases (has_answered w a)) [
      | inl ready ↦
          let same : a ≡ n = ground arith in
          (
            omega arith,
            omega arith,
            (
              rw (← same)
                  (record { going = going; open_pool = ground arith; answered = ground arith }),
              λ m from below. absurd (omega arith),
            ),
          )
      | inr silent ↦ elim (Bool-cases (w.over_waiting a)) [
        | inl over ↦ absurd (ground arith)
        | inr waited ↦
            let rest = connect_from-stop left (a + 1) n (ground arith) in
            (
              omega (arith, rest.0),
              omega (arith, rest.1),
              (
                rest.2.0,
                λ m from below. elim (Bool-cases (a == m)) [
                  | inl same ↦
                      rw (← ((==_iff a m).0 same))
                        (record { going = going; silent = silent; waited = waited })
                  | inr other ↦ rest.2.1 m (ground arith) below
                ],
              ),
            )
      ]
    ]
  ]

  connect_from-reach :
      (left a n : ℕ) → a ≤ n → n < a + left → FirstReady w a n → connect_from w left a ≡ connected n
  unfolding connect_from
  connect_from-reach zero a n low high first = absurd (omega arith)
  connect_from-reach (suc left) a n low high first = elim (Bool-cases (a == n)) [
    | inl same ↦
        let here : n ≡ a = sym ((==_iff a n).0 same) in
        let ready : Ready w a = rw (← here) first.0 in
        rw here (ground (arith, ready.going, ready.open_pool, ready.answered))
    | inr other ↦
        let passed = first.1 a (omega arith) (ground arith) in
        let rest =
          connect_from-reach left (a + 1) n (ground arith) (omega arith)
            (first.0, λ m from below. first.1 m (omega arith) below) in
        ground (arith, passed.going, passed.silent, passed.waited, rest)
  ]

-- Connect gives a pool at an attempt exactly if that attempt is one of the thirty, finds the context alive
-- and a pool that opens and has_answered, and every earlier attempt failed with the context alive before it and
-- until the end of the wait after it.
pub connect_iff :
    (w : World) (n : ℕ) → (connect w ≡ connected n) ↔ ((1 ≤ n) × (n ≤ 30) × FirstReady w 1 n)
unfolding connect
connect_iff w n = (
  λ h. let stop = connect_from-stop w 30 1 n h in (stop.0, omega (arith, stop.1), stop.2),
  λ first. connect_from-reach w 30 1 n first.0 (omega (arith, first.1)) first.2,
)
