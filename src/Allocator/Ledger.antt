-- ===== src/Allocator/Ledger.antt =====
-- The allocator (core/allocator.go) as a ledger of the reservations that are out.
use dvf.Prelude.{
  ℕ, ◌+◌, ◌^◌, ◌≤◌, ◌<◌, ◌≡◌, ◌⊎◌, inl, inr, ap, ◌∙◌, List, [], ◌∷◌, ◌++◌, true, false, arith,
  Bool-cases,
}
use dvf.Prelude.Int.{ℤ, pos, negsuc, add64, sub64, add64_pos, sub64_pos, ◌≤ℤ◌, ◌<ℤ◌, ltb_ℤ, IsInt64}
use dvf.Allocator.{Allocation, ResourceBudget, try_acquire, release, can_fit}

-- A reservation of processors and memory.
pub record Hold : Type 0 where
  pub cpus : ℕ
  pub mem_mb : ℕ

abbrev pub request : Hold → Allocation
request h = record { cpus = pos h.cpus; mem_mb = pos h.mem_mb }

abbrev pub sum_cpus : List Hold → ℕ
sum_cpus [] = 0
sum_cpus (h ∷ hs) = h.cpus + sum_cpus hs

abbrev pub sum_mem_mb : List Hold → ℕ
sum_mem_mb [] = 0
sum_mem_mb (h ∷ hs) = h.mem_mb + sum_mem_mb hs

-- The used amounts are the sums of what is out, and stay within the totals.
pub record Accounts (out : List Hold) (b : ResourceBudget) : Type 0 where
  pub cpus : b.used_cpus ≡ pos (sum_cpus out)
  pub mem_mb : b.used_mem_mb ≡ pos (sum_mem_mb out)
  pub cpus_fit : pos (sum_cpus out) ≤ℤ b.total_cpus
  pub mem_mb_fit : pos (sum_mem_mb out) ≤ℤ b.total_mem_mb
  pub cpus_int : IsInt64 b.total_cpus
  pub mem_mb_int : IsInt64 b.total_mem_mb

-- A request whose sums fit 64 bits.
abbrev pub NoOverflow : Hold → List Hold → Type 0
NoOverflow h out = (sum_cpus out + h.cpus < 2 ^ 63) × (sum_mem_mb out + h.mem_mb < 2 ^ 63)

add64_nat : (x : ℤ) (m n : ℕ) → x ≡ pos m → m + n < 2 ^ 63 → add64 x (pos n) ≡ pos (m + n)
add64_nat x m n e h = rw e (add64_pos m n h)

sub64_nat : (x : ℤ) (m n : ℕ) → x ≡ pos (m + n) → m + n < 2 ^ 63 → sub64 x (pos n) ≡ pos m
sub64_nat x m n e h = rw e (sub64_pos (m + n) n (omega arith) h ∙ ap pos (omega arith))

sum_cpus-insert :
    (h : Hold) (xs ys : List Hold) → sum_cpus (xs ++ h ∷ ys) ≡ sum_cpus (xs ++ ys) + h.cpus
sum_cpus-insert h [] ys = omega arith
sum_cpus-insert h (x ∷ xs) ys = omega (arith, sum_cpus-insert h xs ys)

sum_mem_mb-insert :
    (h : Hold) (xs ys : List Hold) → sum_mem_mb (xs ++ h ∷ ys) ≡ sum_mem_mb (xs ++ ys) + h.mem_mb
sum_mem_mb-insert h [] ys = omega arith
sum_mem_mb-insert h (x ∷ xs) ys = omega (arith, sum_mem_mb-insert h xs ys)

-- Where the used amounts are the sums of the reservations that are out and no sum passes 64 bits,
-- TryAcquire succeeds exactly where both sums stay within the totals, then adds the reservation to what
-- is out, and otherwise changes nothing.
pub try_acquire-Accounts :
    (h : Hold) (out : List Hold) (b : ResourceBudget)
    → Accounts out b
    → NoOverflow h out
    → (((try_acquire (request h) b).1 ≡ true) × Accounts (h ∷ out) (try_acquire (request h) b).0)
      ⊎ ((try_acquire (request h) b ≡ (b, false))
          × ((b.total_cpus <ℤ pos (sum_cpus out + h.cpus))
              ⊎ (b.total_mem_mb <ℤ pos (sum_mem_mb out + h.mem_mb))))
unfolding try_acquire
try_acquire-Accounts h out b a n =
    let c = add64_nat b.used_cpus (sum_cpus out) h.cpus a.cpus n.0 in
    let m = add64_nat b.used_mem_mb (sum_mem_mb out) h.mem_mb a.mem_mb n.1 in
    let cpus_ok : ltb_ℤ (pos h.cpus) (pos 0) ≡ false = ground arith in
    let mem_ok : ltb_ℤ (pos h.mem_mb) (pos 0) ≡ false = ground arith in
    rw (cpus_ok, mem_ok, c, m)
      (elim (Bool-cases (ltb_ℤ b.total_cpus (pos (sum_cpus out + h.cpus)))) [
        | inl e ↦ inr (rw e, inl (ground arith))
        | inr e ↦ elim (Bool-cases (ltb_ℤ b.total_mem_mb (pos (sum_mem_mb out + h.mem_mb)))) [
          | inl f ↦ inr (rw (e, f), inr (ground arith))
          | inr f ↦ inl (
            rw (e, f),
            rw (e, f)
                (record {
                  cpus = ap pos (omega arith);
                  mem_mb = ap pos (omega arith);
                  cpus_fit = ground arith;
                  mem_mb_fit = ground arith;
                  cpus_int = a.cpus_int;
                  mem_mb_int = a.mem_mb_int;
                }),
          )
        ]
      ])

-- Release of a reservation that is out takes it off exactly, wherever it stands: the clamp at zero
-- is never needed.
pub release-Accounts :
    (h : Hold) (before after : List Hold) (b : ResourceBudget)
    → Accounts (before ++ h ∷ after) b
    → Accounts (before ++ after) (release (request h) b)
unfolding release
release-Accounts h before after b a =
    let c = sum_cpus-insert h before after in
    let m = sum_mem_mb-insert h before after in
    let c' : sub64 b.used_cpus (pos h.cpus) ≡ pos (sum_cpus (before ++ after)) =
      sub64_nat b.used_cpus (sum_cpus (before ++ after)) h.cpus (a.cpus ∙ ap pos c)
        (ground (arith, a.cpus_fit, a.cpus_int)) in
    let m' : sub64 b.used_mem_mb (pos h.mem_mb) ≡ pos (sum_mem_mb (before ++ after)) =
      sub64_nat b.used_mem_mb (sum_mem_mb (before ++ after)) h.mem_mb (a.mem_mb ∙ ap pos m)
        (ground (arith, a.mem_mb_fit, a.mem_mb_int)) in
    record {
      cpus = rw c' (ground arith);
      mem_mb = rw m' (ground arith);
      cpus_fit = omega (arith, a.cpus_fit);
      mem_mb_fit = omega (arith, a.mem_mb_fit);
      cpus_int = a.cpus_int;
      mem_mb_int = a.mem_mb_int;
    }

-- CanFit says what TryAcquire would answer for a request that is not negative.
pub can_fit-try_acquire :
    (h : Hold) (b : ResourceBudget) → can_fit (request h) b ≡ (try_acquire (request h) b).1
unfolding can_fit try_acquire
can_fit-try_acquire h b = ground arith

-- CanFit takes a negative request that TryAcquire refuses.
pub can_fit_negative :
    (n m t k : ℕ) (b : ResourceBudget)
    → n < m
    → b
      ≡ record { total_cpus = pos t; total_mem_mb = pos k; used_cpus = pos m; used_mem_mb = pos 0 }
    → m ≤ t
    → t < 2 ^ 63
    → (can_fit (record { cpus = negsuc n; mem_mb = pos 0 }) b ≡ true)
      × ((try_acquire (record { cpus = negsuc n; mem_mb = pos 0 }) b).1 ≡ false)
unfolding can_fit try_acquire add64
can_fit_negative n m t k b h e f g = rw e (ground arith, ground arith)

-- Where the sum of processors passes 64 bits it wraps to a negative number, and TryAcquire takes a
-- request that is larger than the whole host.
pub try_acquire_wraps :
    (u n t k : ℕ) (b : ResourceBudget)
    → b
      ≡ record { total_cpus = pos t; total_mem_mb = pos k; used_cpus = pos u; used_mem_mb = pos 0 }
    → t < n
    → n < 2 ^ 63
    → u < 2 ^ 63
    → 2 ^ 63 ≤ u + n
    → ((try_acquire (record { cpus = pos n; mem_mb = pos 0 }) b).1 ≡ true)
      × ((try_acquire (record { cpus = pos n; mem_mb = pos 0 }) b).0.used_cpus <ℤ pos 0)
unfolding try_acquire add64
try_acquire_wraps u n t k b e h i j l = rw e (ground arith, ground arith)
