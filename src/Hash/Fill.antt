-- ===== src/Hash/Fill.antt =====
-- src/ds/ns_hashtbl.c: where hash values are looked for after buckets were filled.
use native.Mathlib.Nat.{mod-lt}
use nanosig.Base.{
  ℕ, zero, suc, ◌+◌, ◌%◌, ◌^◌, ◌<◌, ◌≡◌, ◌≢◌, sym, ◌∙◌, inl, inr, true, false, Bool-cases, arith,
}
use nanosig.Hash.{Table, need_remake}
use nanosig.Hash.Home.{home, home-zero, pow_pos, home-mod, home_filled, home_older, home_settles}

-- Between two tables with the same mask, some buckets that were not filled have been, each of which
-- was looked for in the bucket o until then.
pub record Fills (k o : ℕ) (t u : Table) : Type 0 where
  pub grows : (j : ℕ) → need_remake t j ≡ false → need_remake u j ≡ false
  pub fresh :
      (j : ℕ) → need_remake t j ≡ true → need_remake u j ≡ false → (home t k j ≡ o) × (j < 2 ^ k)

-- A hash value that is looked for elsewhere still is.
pub home_stays :
    {t u : Table} {k o : ℕ} (f : Fills k o t u) (m d h : ℕ)
    → k ≡ d + m
    → home t m h ≢ o
    → home u m h ≡ home t m h
home_stays {t} {u} f zero d h e away = home-zero u h ∙ sym (home-zero t h)
home_stays {t} {u} {k} {o} f (suc m) d h e away =
    elim (Bool-cases (need_remake t (h % 2 ^ suc m))) [
      | inr filled ↦ home_filled u m h (f.grows _ filled) ∙ sym (home_filled t m h filled)
      | inl bare ↦ elim (Bool-cases (need_remake u (h % 2 ^ suc m))) [
        | inl still ↦
            home_older u m h still
            ∙ home_stays f m (suc d) h (omega (arith, e)) (λ at. away (home_older t m h bare ∙ at))
            ∙ sym (home_older t m h bare)
        | inr made ↦ absurd (
            away (
              sym (home-mod t (suc m) (suc m) h (omega arith))
              ∙ sym (home_settles t (suc m) d k (h % 2 ^ suc m) e (mod-lt h (pow_pos (suc m))) bare)
              ∙ (f.fresh _ bare made).0))
      ]
    ]
