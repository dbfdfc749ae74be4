-- ===== src/Metadata/Owned.antt =====
-- The rule by which Jansson counts references, over a list of calls: a new value is one reference that
-- the caller owns, json_object_set_new and json_decref take one from the caller, and the other calls
-- none. A call that takes a reference that the caller does not own is a use of a value that may be
-- freed.
use audio_fs.Base.{
  ℕ, ◌+◌, ◌-◌, ◌≡◌, ap, ◌<◌, ltb→lt, true, false, Bool-cases, inl, inr, List, [], ◌∷◌, ◌++◌, Option,
  none, some, ltb, ◌==◌, arith, if◌then◌else◌,
}
use audio_fs.Metadata.{
  Key, JsonCall, object, array, decref, dumps, set_new, set_shared, append, set_leaf,
}

abbrev gain : (ℕ → ℕ) → ℕ → ℕ → ℕ
gain own r q = if q == r then own q + 1 else own q

abbrev lose : (ℕ → ℕ) → ℕ → ℕ → ℕ
lose own r q = if q == r then own q - 1 else own q

-- The references owned at the end, or nothing where one was taken that was not owned.
unfoldable pub owned : (ℕ → ℕ) → List JsonCall → Option (ℕ → ℕ)
owned own [] = some own
owned own (object r ∷ cs) = owned (gain own r) cs
owned own (array r ∷ cs) = owned (gain own r) cs
owned own (decref r ∷ cs) = elim (ltb 0 (own r)) [ true ↦ owned (lose own r) cs | false ↦ none ]
owned own (set_new o k r ∷ cs) = elim (ltb 0 (own r)) [
  | true ↦ owned (lose own r) cs
  | false ↦ none
]
owned own (dumps r ∷ cs) = owned own cs
owned own (set_shared o k r ∷ cs) = owned own cs
owned own (append a r ∷ cs) = owned own cs
owned own (set_leaf o k v ∷ cs) = owned own cs

-- How many references to `r` a call gives the caller, and how many it takes.
abbrev pub gives : ℕ → JsonCall → ℕ
gives r (object q) = if r == q then 1 else 0
gives r (array q) = if r == q then 1 else 0
gives r (decref q) = 0
gives r (set_new o k q) = 0
gives r (dumps q) = 0
gives r (set_shared o k q) = 0
gives r (append a q) = 0
gives r (set_leaf o k v) = 0

abbrev pub takes : ℕ → JsonCall → ℕ
takes r (object q) = 0
takes r (array q) = 0
takes r (decref q) = if r == q then 1 else 0
takes r (set_new o k q) = if r == q then 1 else 0
takes r (dumps q) = 0
takes r (set_shared o k q) = 0
takes r (append a q) = 0
takes r (set_leaf o k v) = 0

abbrev pub total : (JsonCall → ℕ) → List JsonCall → ℕ
total f [] = 0
total f (c ∷ cs) = f c + total f cs

pub total-append :
    (f : JsonCall → ℕ) (cs ds : List JsonCall) → total f (cs ++ ds) ≡ total f cs + total f ds
total-append f [] ds = omega arith
total-append f (c ∷ cs) ds = omega (arith, total-append f cs ds)

not_some : (own : ℕ → ℕ) → ◌≡◌ {A = Option (ℕ → ℕ)} none (some own) → ⊥
not_some own e = cc

decref-owned :
    (own : ℕ → ℕ) (q : ℕ) (cs : List JsonCall)
    → owned own (decref q ∷ cs) ≡ (if ltb 0 (own q) then owned (lose own q) cs else none)
unfolding owned
decref-owned own q cs = ground arith

set_new-owned :
    (own : ℕ → ℕ) (o : ℕ) (k : Key) (q : ℕ) (cs : List JsonCall)
    → owned own (set_new o k q ∷ cs) ≡ (if ltb 0 (own q) then owned (lose own q) cs else none)
unfolding owned
set_new-owned own o k q cs = ground arith

-- A call that took a reference found it there.
taken :
    (own : ℕ → ℕ) (q : ℕ) (cs : List JsonCall) (own' : ℕ → ℕ)
    → (if ltb 0 (own q) then owned (lose own q) cs else none) ≡ some own'
    → (0 < own q) × (owned (lose own q) cs ≡ some own')
taken own q cs own' e = elim (Bool-cases (ltb 0 (own q))) [
  | inl there ↦ (ltb→lt 0 (own q) there, rw there at e)
  | inr gone ↦ absurd (not_some own' (rw gone at e))
]

-- Where no reference is taken that is not owned, what is owned at the end is what was owned and given
-- but not taken.
pub owned-total :
    (r : ℕ) (cs : List JsonCall) (own own' : ℕ → ℕ)
    → owned own cs ≡ some own'
    → total (takes r) cs + own' r ≡ own r + total (gives r) cs
unfolding owned
owned-total r [] own own' e =
    let same : own ≡ own' = cc in omega (arith, ap (λ (f : ℕ → ℕ). f r) same)
owned-total r (object q ∷ cs) own own' e = ground (arith, owned-total r cs (gain own q) own' e)
owned-total r (array q ∷ cs) own own' e = ground (arith, owned-total r cs (gain own q) own' e)
owned-total r (decref q ∷ cs) own own' e =
    let (there, rest) = taken own q cs own' (cc (decref-owned own q cs, e)) in
    ground (arith, owned-total r cs (lose own q) own' rest)
owned-total r (set_new o k q ∷ cs) own own' e =
    let (there, rest) = taken own q cs own' (cc (set_new-owned own o k q cs, e)) in
    ground (arith, owned-total r cs (lose own q) own' rest)
owned-total r (dumps q ∷ cs) own own' e = omega (arith, owned-total r cs own own' e)
owned-total r (set_shared o k q ∷ cs) own own' e = omega (arith, owned-total r cs own own' e)
owned-total r (append a q ∷ cs) own own' e = omega (arith, owned-total r cs own own' e)
owned-total r (set_leaf o k v ∷ cs) own own' e = omega (arith, owned-total r cs own own' e)
