-- ===== src/Web/RateLimit/Recent.antt =====
-- The hits that are kept of a key, and those that are recent.
use playkaboom.Common.{
  ℕ, ◌+◌, ◌≤◌, ◌≡◌, refl, arith, false, List, [], ◌∷◌, ◌++◌, Bool-cases, inl, inr, length,
}
use playkaboom.Sdk.Buffer.{Bytes, bytes_eq}
use playkaboom.Sdk.Buffer.Laws.{bytes_eq_refl, bytes_eq_sound}
use playkaboom.Web.RateLimit.{Hits, hits_of, set_hits, recent}

pub hits_of-set_hits :
    (all : Hits) (key : Bytes) (hits : List ℕ) → hits_of (set_hits all key hits) key ≡ hits
unfolding hits_of set_hits
hits_of-set_hits [] key hits = rw (bytes_eq_refl key) refl
hits_of-set_hits ((k, old) ∷ rest) key hits = ground (arith, hits_of-set_hits rest key hits)

pub recent-append :
    (now : ℕ) (xs ys : List ℕ) → recent now (xs ++ ys) ≡ recent now xs ++ recent now ys
unfolding recent
recent-append now [] ys = refl
recent-append now (x ∷ xs) ys = ground (arith, recent-append now xs ys)

-- What is recent later was recent before.
pub recent-recent :
    (now later : ℕ) (xs : List ℕ) → now ≤ later → recent later (recent now xs) ≡ recent later xs
unfolding recent
recent-recent now later [] h = refl
recent-recent now later (x ∷ xs) h = ground (arith, recent-recent now later xs h)

pub length-recent : (now : ℕ) (xs : List ℕ) → length (recent now xs) ≤ length xs
unfolding recent
length-recent now [] = omega arith
length-recent now (x ∷ xs) = ground (arith, length-recent now xs)

pub length-set_hits :
    (all : Hits) (key : Bytes) (hits : List ℕ) → length (set_hits all key hits) ≤ length all + 1
unfolding set_hits
length-set_hits [] key hits = omega arith
length-set_hits ((k, old) ∷ rest) key hits = ground (arith, length-set_hits rest key hits)

pub hits_of-set_hits_other :
    (all : Hits) (key other : Bytes) (hits : List ℕ)
    → bytes_eq other key ≡ false
    → hits_of (set_hits all other hits) key ≡ hits_of all key
unfolding hits_of set_hits
hits_of-set_hits_other [] key other hits h = rw h refl
hits_of-set_hits_other ((k, old) ∷ rest) key other hits h =
    let ih = hits_of-set_hits_other rest key other hits h in
    elim (Bool-cases (bytes_eq k other)) [
      | inl here ↦
          let same : k ≡ other = bytes_eq_sound k other here in
          let differs : bytes_eq k key ≡ false = rw same h in rw (here, differs) refl
      | inr there ↦ rw there (ground (arith, ih))
    ]
