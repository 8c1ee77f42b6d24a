-- ===== src/Store/Triples.antt =====
-- Triples of pre- and postconditions for actions, and the two kinds that a transaction is made of:
-- those that only read the open transaction, and those that take it from one view to another. None
-- of them touches what is on disk.
use infra_artifact_ledger.Prelude.{
  ◌≡◌, refl, Bool, true, false, List, [], ◌∷◌, Option, some, if◌then◌else◌, Option-cases, inl, inr,
}
use infra_artifact_ledger.Errors.{Code, Result, ok, err}
use infra_artifact_ledger.Store.Tables.{Db}
use infra_artifact_ledger.Store.Exec.{
  World, Exec, Outcome, returns, raises, Exn, ledger, rejected, sqlite, checkpoint_interrupted,
  os_error, failure, interrupt, runs, fails, late, ends, Fault, next_fault, later_faults, pure,
  raise, lift, wrap, ◌>>=◌,
}
use infra_artifact_ledger.Store.Statements.{query, write, read_on, write_on}
use infra_artifact_ledger.Store.Operations.{each}

-- What holds of the state after an action, by how it ended.
abbrev pub Post :
    {A : Type 0} → (A → World → Type 0) → (World → Type 0) → Outcome A × World → Type 0
Post Q E (returns a, w) = Q a w
Post Q E (raises e, w) = E w

pub record Holds {A : Type 0} (P : World → Type 0) (Q : A → World → Type 0) (E : World → Type 0)
    (m : Exec A) : Type 0 where
  pub at : (w : World) → P w → Post Q E (m w)

-- A transaction of this call is open, with the view `d`, over the file `d0`.
pub record Working (d0 d : Db) (w : World) : Type 0 where
  pub durable : w.durable ≡ d0
  pub active : w.active ≡ some d

pub record Untouched (d0 : Db) (w : World) : Type 0 where
  pub durable : w.durable ≡ d0

abbrev pub Takes : {A : Type 0} → Db → Db → Db → Exec A → Type 0
Takes d0 d d' m = Holds (Working d0 d) (λ _. Working d0 d') (Untouched d0) m

abbrev pub Reads : {A : Type 0} → Db → Db → Exec A → Type 0
Reads d0 d m = Takes d0 d d m

module _ {A B : Type 0} {P : World → Type 0} {Q : A → World → Type 0} {R : B → World → Type 0}
    {E : World → Type 0} where
  pub Holds-bind :
      (m : Exec A) (f : A → Exec B)
      → Holds P Q E m
      → ((a : A) → Holds (Q a) R E (f a))
      → Holds P R E (m >>= f)
  unfolding ◌>>=◌
  Holds-bind m f km kf = record { at = λ w h. go (m w) (km.at w h) }
    where
      go : (r : Outcome A × World) → Post Q E r → Post R E (((λ _. r) >>= f) r.1)
      go (returns a, w) h = (kf a).at w h
      go (raises e, w) h = h

-- A fact that the precondition carries beside the state.
pub Holds-given :
    {A C : Type 0} {P : World → Type 0} {Q : A → World → Type 0} {E : World → Type 0} (m : Exec A)
    → (C → Holds P Q E m)
    → Holds (λ w. P w × C) Q E m
Holds-given m k = record { at = λ w h. (k h.1).at w h.0 }

-- The same for a fact about the state itself.
pub Holds-from :
    {A : Type 0} {P C E : World → Type 0} {Q : A → World → Type 0} (m : Exec A)
    → ((v : World) → C v → Holds P Q E m)
    → Holds (λ w. P w × C w) Q E m
Holds-from m k = record { at = λ w h. (k w h.1).at w h.0 }

pub Takes-bind :
    {A B : Type 0} {d0 d d' d'' : Db} (m : Exec A) (f : A → Exec B)
    → Takes d0 d d' m
    → ((a : A) → Takes d0 d' d'' (f a))
    → Takes d0 d d'' (m >>= f)
Takes-bind = Holds-bind

-- The rule for search, which finds no view in between.
pub Reads-bind :
    {A B : Type 0} {d0 d : Db} (m : Exec A) (f : A → Exec B)
    → Reads d0 d m
    → ((a : A) → Reads d0 d (f a))
    → Reads d0 d (m >>= f)
Reads-bind = Takes-bind

-- A change of the exception's code changes nothing else.
pub Holds-wrap :
    {A : Type 0} {P : World → Type 0} {Q : A → World → Type 0} {E : World → Type 0} (c : Code)
    (m : Exec A)
    → Holds P Q E m
    → Holds P Q E (wrap c m)
unfolding wrap
Holds-wrap {A} {P} {Q} {E} c m km = record { at = λ w h. go (m w) (km.at w h) }
  where
    go : (r : Outcome A × World) → Post Q E r → Post Q E (wrap c (λ _. r) r.1)
    go (returns a, w) h = h
    go (raises (ledger e), w) h = h
    go (raises (rejected e), w) h = h
    go (raises (sqlite e), w) h = h
    go (raises checkpoint_interrupted, w) h = h
    go (raises os_error, w) h = h
    go (raises failure, w) h = h
    go (raises interrupt, w) h = h

-- A lifted result is returned only if it is a success.
pub Holds-lift :
    {A : Type 0} {P E : World → Type 0} (r : Result A)
    → ((w : World) → P w → E w)
    → Holds P (λ a w. P w × (r ≡ ok a)) E (lift r)
unfolding lift
Holds-lift (ok a) k = record { at = λ w h. (h, refl) }
Holds-lift (err c) k = record { at = λ w h. k w h }

module _ {A : Type 0} {d0 d : Db} where
  pub Reads-pure : (a : A) → Reads d0 d (pure a)
  unfolding pure
  Reads-pure a = record { at = λ w h. h }

  pub Reads-raise : (e : Exn) → Reads d0 d (raise {A = A} e)
  unfolding raise
  Reads-raise e = record { at = λ w h. record { durable = h.durable } }

  pub Reads-lift : (r : Result A) → Reads d0 d (lift r)
  unfolding lift pure raise
  Reads-lift (ok a) = Reads-pure a
  Reads-lift (err c) = Reads-raise (ledger c)

  pub Reads-if :
      (b : Bool) (m n : Exec A) → Reads d0 d m → Reads d0 d n → Reads d0 d (if b then m else n)
  Reads-if true m n km kn = km
  Reads-if false m n km kn = kn

  pub Reads-query : (f : Db → A) → Reads d0 d (query f)
  unfolding query
  Reads-query f = record { at = λ w h. go (next_fault w.faults) w h }
    where
      go :
          (t : Fault) (w : World)
          → Working d0 d w
          → Post
              (λ _. Working d0 d)
              (Untouched d0)
              (read_on f t (record w { faults = later_faults w.faults }))
      go runs w h = record { durable = h.durable; active = h.active }
      go (fails e) w h = record { durable = h.durable }
      go (late e) w h = record { durable = h.durable }
      go (ends e) w h = record { durable = h.durable }

  pub Reads-wrap : (c : Code) (m : Exec A) → Reads d0 d m → Reads d0 d (wrap c m)
  Reads-wrap = Holds-wrap

pub Reads-each :
    {B : Type 0} {d0 d : Db} (f : B → Exec (Unit {0}))
    → ((b : B) → Reads d0 d (f b))
    → (xs : List B) → Reads d0 d (each f xs)
unfolding each pure
Reads-each f kf [] = record { at = λ w h. h }
Reads-each f kf (x ∷ xs) = Takes-bind (f x) (λ _. each f xs) (kf x) (λ _. Reads-each f kf xs)

-- A stronger precondition.
pub Holds-pre :
    {A : Type 0} {P R : World → Type 0} {Q : A → World → Type 0} {E : World → Type 0} (m : Exec A)
    → ((w : World) → R w → P w)
    → Holds P Q E m
    → Holds R Q E m
Holds-pre m k h = record { at = λ w r. h.at w (k w r) }

-- A weaker postcondition.
pub Holds-weaken :
    {A : Type 0} {P : World → Type 0} {Q R : A → World → Type 0} {E : World → Type 0} (m : Exec A)
    → ((a : A) (w : World) → Q a w → R a w)
    → Holds P Q E m
    → Holds P R E m
Holds-weaken {A} {P} {Q} {R} {E} m k h = record { at = λ w p. go (m w) (h.at w p) }
  where
    go : (r : Outcome A × World) → Post Q E r → Post R E r
    go (returns a, w) q = k a w q
    go (raises e, w) q = q

-- What is returned was returned by a run from a state that the precondition allows.
pub Holds-ran :
    {A : Type 0} {P : World → Type 0} {Q : A → World → Type 0} {E : World → Type 0} (m : Exec A)
    → Holds P Q E m
    → Holds P (λ a w. Q a w × ((v : World) × P v × (m v ≡ (returns a, w)))) E m
Holds-ran {A} {P} {Q} {E} m k = record { at = λ w h. go w h (m w) refl (k.at w h) }
  where
    go :
        (v : World)
        → P v
        → (r : Outcome A × World) → m v ≡ r
        → Post Q E r
        → Post (λ a w. Q a w × ((v : World) × P v × (m v ≡ (returns a, w)))) E r
    go v h (returns a, w) e q = (q, (v, h, e))
    go v h (raises e, w) _ q = q

-- An INSERT that returns was allowed by the constraints.
pub Holds-write :
    {d0 d : Db} (g : Db → Option Db)
    → Holds
        (Working d0 d)
        (λ _ w. (e : Db) × Working d0 e w × (g d ≡ some e))
        (Untouched d0)
        (write g)
unfolding write
Holds-write {d0} {d} g = record { at = λ w h. go (next_fault w.faults) w h }
  where
    go :
        (t : Fault) (w : World)
        → Working d0 d w
        → Post
            (λ _ v. (e : Db) × Working d0 e v × (g d ≡ some e))
            (Untouched d0)
            (write_on g t (record w { faults = later_faults w.faults }))
    go runs w h = elim (Option-cases (g d)) [
      | inl refused ↦ rw (h.active, refused) (record { durable = h.durable })
      | inr (e, allowed) ↦
          rw (h.active, allowed) (e, record { durable = h.durable; active = refl }, refl)
    ]
    go (fails e) w h = record { durable = h.durable }
    go (late e) w h = elim (Option-cases (g d)) [
      | inl refused ↦ rw (h.active, refused) (record { durable = h.durable })
      | inr (f, allowed) ↦ rw (h.active, allowed) (record { durable = h.durable })
    ]
    go (ends e) w h = record { durable = h.durable }

pub Takes-write :
    {d0 d d' : Db} (g : Db → Option Db)
    → ((e : Db) → g d ≡ some e → e ≡ d')
    → Takes d0 d d' (write g)
Takes-write {d0} {d} {d'} g only =
    Holds-weaken (write g) (λ a w (e, h, allowed). rw (← only e allowed) h) (Holds-write g)

pub ruleset read_rules =
    (Reads-pure, Reads-raise, Reads-lift, Reads-if, Reads-query, Reads-wrap, Reads-each, Reads-bind)
