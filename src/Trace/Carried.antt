-- ===== src/Trace/Carried.antt =====
-- The trace of services/api-gateway goes on in services/worker-image, on every attempt.
use media_forge.Prelude.{
  ℕ, zero, suc, ◌≡◌, ◌≤◌, refl, sym, ap, ◌∙◌, Bool, true, false, Option, some, List, [], ◌∷◌, pos,
  suc_int, max_int, All, Any, inl, inr, arith, if◌then◌else◌,
}
use media_forge.Text.{Text, codes, ◌==◌}
use media_forge.Text.Equality.{eq_iff}
use media_forge.Worker.Amqp.{Field, text, Table, empty, entry, get, first_death, death_count}
use media_forge.Worker.Consume.{Delivery, attempt}
use media_forge.Trace.{
  text_or_empty, carrier_get, carrier_set, Propagator, set_all, headers_of, parent,
}

get-carrier_set :
    (h : Table) (key value k : Text)
    → get (carrier_set h key value) k ≡ (if key == k then some (text value) else get h k)
unfolding get carrier_set
get-carrier_set empty key value k = ground arith
get-carrier_set (entry j v h) key value k =
    ground (arith, get-carrier_set h key value k, eq_iff j key, eq_iff j k, eq_iff key k)

-- The value that is set last for a key, or else one that was there.
abbrev pub value_in : List (Text × Text) → Text → Text → Text
value_in [] key old = old
value_in ((k, v) ∷ rest) key old = value_in rest key (if k == key then v else old)

abbrev Lacks : Text → List (Text × Text) → Type 0
Lacks key = All (λ (f : Text × Text). f.0 == key ≡ false)

if-text_or_empty :
    (b : Bool) (value : Text) (o : Option Field)
    → text_or_empty (if b then some (text value) else o) ≡ (if b then value else text_or_empty o)
if-text_or_empty true value o = refl
if-text_or_empty false value o = refl

module _ (P : Propagator) where
  open P use {Context}

  carrier_get-set_all :
      (fs : List (Text × Text)) (h : Table) (k : Text)
      → carrier_get (set_all P fs h) k ≡ value_in fs k (carrier_get h k)
  unfolding carrier_get set_all
  carrier_get-set_all [] h k = refl
  carrier_get-set_all ((key, value) ∷ rest) h k =
      carrier_get-set_all rest (carrier_set h key value) k
      ∙ ap (value_in rest k) (
          ap text_or_empty (get-carrier_set h key value k)
          ∙ if-text_or_empty (key == k) value (get h k))

  get-set_all :
      (fs : List (Text × Text)) (h : Table) (k : Text)
      → Lacks k fs
      → get (set_all P fs h) k ≡ get h k
  unfolding set_all
  get-set_all [] h k lacks = refl
  get-set_all ((key, value) ∷ rest) h k lacks =
      get-set_all rest (carrier_set h key value) k lacks.1
      ∙ get-carrier_set h key value k
      ∙ rw lacks.0 refl

  -- What is assumed of the propagator: its keys, of which x-death is none, are all that it sets, its
  -- `Extract` reads no other ones, and joins what `Inject` sets to a context as `joined` says.
  pub record IsPropagator (joined : Context → Context → Context) : Type 0 where
    pub names : List Text
    pub no_deaths : All (λ (n : Text). n == codes "x-death" ≡ false) names
    pub sets :
        (c : Context) → All (λ (f : Text × Text). Any (λ (n : Text). n ≡ f.0) names) (P.fields c)
    pub reads :
        (f g : Text → Text) (base : Context)
        → ((n : Text) → Any (λ (m : Text). m ≡ n) names → f n ≡ g n)
        → P.extract f base ≡ P.extract g base
    pub joins :
        (c base : Context) → P.extract (λ key. value_in (P.fields c) key []) base ≡ joined c base

  -- The headers after so many times in the retry queue
  abbrev pub cycles : (Table → Table) → ℕ → Table → Table
  cycles cycle zero h = h
  cycles cycle (suc n) h = cycle (cycles cycle n h)

  -- The message, when it comes back for the n-th time
  abbrev pub returned : (Table → Table) → Context → ℕ → Text → Text → Delivery
  returned cycle c n key body = record {
    headers = cycles cycle n (headers_of P c);
    routing_key = key;
    body = body;
  }

  listed-Lacks :
      (names : List Text) (key : Text)
      → All (λ (n : Text). n == key ≡ false) names
      → (name : Text) → Any (λ (n : Text). n ≡ name) names
      → name == key ≡ false
  listed-Lacks [] key apart name h = absurd h
  listed-Lacks (n ∷ names) key apart name (inl e) = ap (λ x. x == key) (sym e) ∙ apart.0
  listed-Lacks (n ∷ names) key apart name (inr h) = listed-Lacks names key apart.1 name h

  module _ (joined : Context → Context → Context) (laws : IsPropagator joined)
      (cycle : Table → Table)
      (cycle_keeps : (h : Table) (n : Text)
        → Any (λ (m : Text). m ≡ n) laws.names
        → get (cycle h) n ≡ get h n)
      (cycle_counts : (h : Table) (n : ℕ)
        → death_count h ≡ pos n
        → death_count (cycle h) ≡ pos (suc n)) where
    no_death :
        (fs : List (Text × Text))
        → All (λ (f : Text × Text). Any (λ (n : Text). n ≡ f.0) laws.names) fs
        → Lacks (codes "x-death") fs
    no_death [] h = tt
    no_death (f ∷ fs) h =
        (listed-Lacks laws.names (codes "x-death") laws.no_deaths f.0 h.0, no_death fs h.1)

    first_count : (c : Context) → death_count (headers_of P c) ≡ pos 0
    unfolding headers_of death_count get
    first_count c =
        ap (λ o. first_death o)
          (get-set_all (P.fields c) empty (codes "x-death") (no_death (P.fields c) (laws.sets c)))

    cycles-count : (c : Context) (n : ℕ) → death_count (cycles cycle n (headers_of P c)) ≡ pos n
    cycles-count c zero = first_count c
    cycles-count c (suc n) = cycle_counts _ n (cycles-count c n)

    cycles-get :
        (h : Table) (n : ℕ) (name : Text)
        → Any (λ (m : Text). m ≡ name) laws.names
        → get (cycles cycle n h) name ≡ get h name
    cycles-get h zero name listed = refl
    cycles-get h (suc n) name listed =
        cycle_keeps (cycles cycle n h) name listed ∙ cycles-get h n name listed

    -- The n-th time that the message of a publication comes back from the retry queue, the worker's
    -- span has the context that the publisher has injected, joined to its own, and the attempt is
    -- number n + 1. Of the propagator, IsPropagator is assumed, and of the retry queue, that it keeps
    -- the propagator's headers and counts in x-death.
    pub parent-joined :
        (c base : Context) (n : ℕ) (key body : Text)
        → suc n ≤ max_int
        → (parent P base (returned cycle c n key body) ≡ joined c base)
          × (attempt (returned cycle c n key body) ≡ pos (suc n))
    unfolding parent headers_of carrier_get attempt suc_int
    parent-joined c base n key body below = (
      laws.reads _ _ base (λ name listed.
            ap text_or_empty (cycles-get (headers_of P c) n name listed)
            ∙ carrier_get-set_all (P.fields c) empty name)
          ∙ laws.joins c base,
      rw (cycles-count c n) (ground (arith, below)),
    )
