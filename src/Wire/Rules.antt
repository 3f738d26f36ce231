-- ===== src/Wire/Rules.antt =====
-- Rules for proofs about readers that are written as `do` blocks.
use amarian_amr.Base.{
  ℕ, ◌≡◌, refl, ap, sym, subst, ◌∙◌, Bool, true, false, Option, none, some, List, [], ◌++◌,
  append_assoc, arith,
}
use amarian_amr.Base.Bytes.{AllBytes}
use amarian_amr.Wire.{Reader, Read, at, and_then, ◌>>=◌, return, require}

-- Inversion of a successful bind.
pub and_then-eq_some :
    {A B : Type 0} (p : Option A × Reader) (f : A → Read B) {b : B} {r : Reader}
    → and_then p f ≡ (some b, r)
    → (a : A) × (s : Reader) × (p ≡ (some a, s)) × (f a s ≡ (some b, r))
and_then-eq_some (none, s) f h = cc
and_then-eq_some (some a, s) f h = (a, s, refl, h)

-- `m` takes exactly `used` off the front of any input, and returns `a`.
pub record Reads {A : Type 0} (m : Read A) (a : A) (used : List ℕ) : Type 0 where
  pub run : (rest : List ℕ) → m (at (used ++ rest)) ≡ (some a, at rest)

module _ {A B : Type 0} where
  pub Reads-bind :
      {m : Read A} (k : A → Read B) {a : A} {b : B} {u v : List ℕ}
      → Reads m a u
      → Reads (k a) b v
      → Reads (m >>= k) b (u ++ v)
  Reads-bind {m} k {a} {b} {u} {v} p q = record {
    run = λ rest. rw (append_assoc u v rest, p.run (v ++ rest)) (q.run rest);
  }

  -- The last step of a block.
  pub Reads-map :
      {m : Read A} (f : A → B) {a : A} {u : List ℕ}
      → Reads m a u
      → Reads (m >>= λ x. return (f x)) (f a) u
  Reads-map f p = record { run = λ rest. rw (p.run rest) }

pub Reads-require :
    {B : Type 0} (t : Bool) (k : Read B) {b : B} {u : List ℕ}
    → t ≡ true
    → Reads k b u
    → Reads (require t >>= λ _. k) b u
Reads-require t k e p = record { run = λ rest. rw e (p.run rest) }

-- Whatever `m` returns on a sound reader of bytes, it has taken some front of the input, `Q` holds of
-- the value and of that front, and the reader stays sound.
pub record Parses {A : Type 0} (m : Read A) (Q : A → List ℕ → Type 0) : Type 0 where
  pub run :
      (bytes : List ℕ) (a : A) (r : Reader)
      → AllBytes bytes
      → m (at bytes) ≡ (some a, r)
      → (used rest : List ℕ) × (r ≡ at rest) × (bytes ≡ used ++ rest) × AllBytes rest × Q a used

module _ {A B : Type 0} where
  pub Parses-bind :
      {m : Read A} {k : A → Read B} {Q : A → List ℕ → Type 0} {R : B → List ℕ → Type 0}
      → Parses m Q
      → ((a : A) (u : List ℕ) → Q a u → Parses (k a) (λ b v. R b (u ++ v)))
      → Parses (m >>= k) R
  Parses-bind {m} {k} {Q} {R} p q = record { run = go }
    where
      go :
          (bytes : List ℕ) (b : B) (r : Reader)
          → AllBytes bytes
          → (m >>= k) (at bytes) ≡ (some b, r)
          → (used rest : List ℕ) × (r ≡ at rest) × (bytes ≡ used ++ rest) × AllBytes rest × R b used
      go bytes b r h e =
          let (a, s, e₁, e₂) = and_then-eq_some (m (at bytes)) k e in
          let (u, rest, s_eq, split, h', qa) = p.run bytes a s h e₁ in
          let (v, rest', r_eq, split', h'', rb) = (q a u qa).run rest b r h' (rw s_eq at e₂) in
          (u ++ v, rest', r_eq, split ∙ ap (◌++◌ u) split' ∙ sym (append_assoc u v rest'), h'', rb)

  pub Parses-map :
      {m : Read A} (f : A → B) {Q : A → List ℕ → Type 0} {R : B → List ℕ → Type 0}
      → Parses m Q
      → ((a : A) (u : List ℕ) → Q a u → R (f a) u)
      → Parses (m >>= λ x. return (f x)) R
  Parses-map {m} f {Q} {R} p q = record { run = go }
    where
      go :
          (bytes : List ℕ) (b : B) (r : Reader)
          → AllBytes bytes
          → (m >>= λ x. return (f x)) (at bytes) ≡ (some b, r)
          → (used rest : List ℕ) × (r ≡ at rest) × (bytes ≡ used ++ rest) × AllBytes rest × R b used
      go bytes b r h e =
          let (a, s, e₁, e₂) = and_then-eq_some (m (at bytes)) (λ x. return (f x)) e in
          let (u, rest, s_eq, split, h', qa) = p.run bytes a s h e₁ in
          let b_eq : f a ≡ b = cc in (u, rest, cc, split, h', subst (λ x. R x u) b_eq (q a u qa))

pub Parses-weaken :
    {A : Type 0} {m : Read A} {Q R : A → List ℕ → Type 0}
    → Parses m Q
    → ((a : A) (u : List ℕ) → Q a u → R a u)
    → Parses m R
Parses-weaken p q = record {
  run = λ bytes a r h e.
      let (u, rest, r_eq, split, h', qa) = p.run bytes a r h e in
      (u, rest, r_eq, split, h', q a u qa);
}

pub Parses-require :
    {B : Type 0} (t : Bool) (k : Read B) {R : B → List ℕ → Type 0}
    → (t ≡ true → Parses k R)
    → Parses (require t >>= λ _. k) R
Parses-require true k p = p refl
Parses-require false k p = record { run = λ bytes b r h e. cc }

pub return-Reads : {A : Type 0} (a : A) → Reads (return a) a []
return-Reads a = record { run = λ rest. refl }

pub return-Parses : {A : Type 0} (a : A) (Q : A → List ℕ → Type 0) → Q a [] → Parses (return a) Q
return-Parses a Q q = record {
  run = λ bytes b r h e.
      ([], bytes, cc, refl, h, let same : a ≡ b = cc in subst (λ x. Q x []) same q);
}

-- Blocks associate.
pub and_then_assoc :
    {A B C : Type 0} (x : Option A × Reader) (k : A → Read B) (l : B → Read C)
    → and_then (and_then x k) l ≡ and_then x (λ a. k a >>= l)
and_then_assoc (none, r) k l = refl
and_then_assoc (some a, r) k l = refl

-- A failure marks the reader.
pub record Marks {A : Type 0} (m : Read A) : Type 0 where
  pub run : (r : Reader) → (m r).0 ≡ none → (m r).1.ok ≡ false

-- Failure is sticky as well: a failed reader fails every later read, and is left as it was.
pub record Sticky {A : Type 0} (m : Read A) : Type 0 where
  pub marks : Marks m
  pub stays : (r : Reader) → r.ok ≡ false → m r ≡ (none, r)

pub return-Marks : {A : Type 0} (a : A) → Marks (return a)
return-Marks a = record { run = λ r h. cc }

module _ {A B : Type 0} where
  pub bind-Marks :
      {m : Read A} (k : A → Read B) → Marks m → ((a : A) → Marks (k a)) → Marks (m >>= k)
  bind-Marks {m} k p q = record { run = λ r. go (m r) (p.run r) }
    where
      go :
          (x : Option A × Reader)
          → (x.0 ≡ none → x.1.ok ≡ false)
          → (and_then x k).0 ≡ none
          → (and_then x k).1.ok ≡ false
      go (none, s) h e = h refl
      go (some a, s) h e = (q a).run s e

  pub bind-Sticky :
      {m : Read A} (k : A → Read B) → Sticky m → ((a : A) → Marks (k a)) → Sticky (m >>= k)
  bind-Sticky k p q = record { marks = bind-Marks k p.marks q; stays = λ r h. rw (p.stays r h) }

pub require-Marks : (t : Bool) → Marks (require t)
require-Marks true = record { run = λ r h. cc }
require-Marks false = record { run = λ r h. refl }

pub require-Sticky : {B : Type 0} (t : Bool) {k : Read B} → Sticky k → Sticky (require t >>= λ _. k)
require-Sticky true p = record { marks = record { run = p.marks.run }; stays = p.stays }
require-Sticky false p = record {
  marks = record { run = λ r h. refl };
  stays = λ r h. ground arith;
}
