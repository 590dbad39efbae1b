-- ===== src/Tracing.antt =====
-- internal/observability/amqp_carrier.go: the trace context of a message, in its headers. What the
-- TraceContext of OpenTelemetry writes and reads is its own: `Propagator` has its documented law.
use flowscale.Prelude.Dictionary.{value_at, assign, keys as keys_of, value_at-assign}
use flowscale.Prelude.Predicates.{All}
use flowscale.Prelude.{
  ◌≡◌, refl, sym, subst, false, String, Option, none, some, List, [], ◌∷◌, ◌==◌, eq_iff, eq_refl,
  arith, inl, inr, Bool-cases, if◌then◌else◌,
}
use flowscale.Models.{ℤ}

-- A value of amqp091.Table as this program uses it.
pub data HeaderValue : Type 0 where
  text : String → HeaderValue
  number : ℤ → HeaderValue

-- amqp091.Table, a map that may be nil
abbrev pub Table : Type 0
Table = Option (List (String × HeaderValue))

abbrev text_of : Option HeaderValue → String
text_of (some (text s)) = s
text_of (some (number n)) = ""
text_of none = ""

unfoldable pub get : Table → String → String
get none key = ""
get (some m) key = text_of (value_at key m)

-- The receiver of Set is a copy: a map that it makes for a nil one is lost, and what it writes into
-- a map that is there stays.
unfoldable pub set : Table → String → String → Table
set none key value = none
set (some m) key value = some (assign key (text value) m)

unfoldable pub keys : Table → List String
keys none = []
keys (some m) = keys_of m

abbrev made : Table → Table
made none = some []
made (some m) = some m

unfoldable pub set_all : Table → List (String × String) → Table
set_all t [] = t
set_all t ((k, v) ∷ kvs) = set (set_all t kvs) k v

-- TraceContext: the fields that it sets for a context, and the context that it makes of one by
-- reading the fields. Extraction depends on the context and on the values of the fields alone, and
-- gives back what injection has written.
pub record Propagator : Type 1 where
  pub Context : Type 0
  pub written : Context → List (String × String)
  pub read : Context → (String → String) → Context
  pub continued : Context → Context → Context
  pub read_written :
      (ctx remote : Context) (values : String → String)
      → All (λ kv. values kv.0 ≡ kv.1) (written remote)
      → read ctx values ≡ continued ctx remote

module _ (p : Propagator) where
  open p use {Context, written, read, continued, read_written}

  unfoldable pub inject : Context → Table → Table
  inject ctx headers = set_all (made headers) (written ctx)

  unfoldable pub extract : Context → Table → Context
  extract ctx headers = read ctx (get headers)

abbrev pub Fresh : String → List (String × String) → Type 0
Fresh k kvs = All (λ kv. (kv.0 == k) ≡ false) kvs

-- No key is written twice.
abbrev pub Once : List (String × String) → Type 0
Once [] = Unit
Once (kv ∷ kvs) = Fresh kv.0 kvs × Once kvs

set_all-some :
    (m : List (String × HeaderValue)) (kvs : List (String × String))
    → (m' : List (String × HeaderValue)) × (set_all (some m) kvs ≡ some m')
unfolding set_all set
set_all-some m [] = (m, refl)
set_all-some m ((k, v) ∷ kvs) =
    let (m', e) = set_all-some m kvs in (assign k (text v) m', rw e refl)

-- What Set leaves under each key of a map that is there.
pub lookup_in : String → Table → Option HeaderValue
lookup_in k none = none
lookup_in k (some m) = value_at k m

lookup_in-set :
    (m : List (String × HeaderValue)) (k j v : String)
    → lookup_in j (set (some m) k v) ≡ (if k == j then some (text v) else value_at j m)
unfolding lookup_in set
lookup_in-set m k j v = value_at-assign k j (text v) m

lookup_in-set_all_other :
    (m : List (String × HeaderValue)) (j : String) (kvs : List (String × String))
    → Fresh j kvs
    → lookup_in j (set_all (some m) kvs) ≡ value_at j m
unfolding set_all lookup_in
lookup_in-set_all_other m j [] h = refl
lookup_in-set_all_other m j ((k, v) ∷ kvs) (ne, h) =
    let (m', e) = set_all-some m kvs in
    let ih = lookup_in-set_all_other m j kvs h in rw (e, lookup_in-set m' k j v, ne) (rw e at ih)

get-lookup_in : (t : Table) (k : String) → get t k ≡ text_of (lookup_in k t)
unfolding get lookup_in
get-lookup_in none k = refl
get-lookup_in (some m) k = refl

get-set :
    (m : List (String × HeaderValue)) (k j v : String)
    → get (set (some m) k v) j ≡ (if k == j then v else get (some m) j)
unfolding set get
get-set m k j v = elim (Bool-cases (k == j)) [
  | inl e ↦ rw (value_at-assign k j (text v) m, e) refl
  | inr e ↦ rw (value_at-assign k j (text v) m, e) refl
]

set-All :
    (m : List (String × HeaderValue)) (k v : String) (kvs : List (String × String))
    → Fresh k kvs
    → All (λ kv. get (some m) kv.0 ≡ kv.1) kvs
    → All (λ kv. get (set (some m) k v) kv.0 ≡ kv.1) kvs
set-All m k v [] f a = tt
set-All m k v ((j, u) ∷ kvs) (ne, f) (a, as_) =
    (ground (arith, get-set m k j v, eq_iff k j, eq_iff j k), set-All m k v kvs f as_)

-- Every field has the value that stands in the list.
Reads : Table → List (String × String) → Type 0
Reads t kvs = All (λ kv. get t kv.0 ≡ kv.1) kvs

set-Reads :
    (t : Table) (m : List (String × HeaderValue)) (k v : String) (kvs : List (String × String))
    → t ≡ some m
    → Fresh k kvs
    → Reads t kvs
    → Reads (set t k v) ((k, v) ∷ kvs)
unfolding Reads
set-Reads t m k v kvs e f a =
    subst (λ u. All (λ kv. get (set u k v) kv.0 ≡ kv.1) ((k, v) ∷ kvs)) (sym e)
      (
        rw (get-set m k k v, eq_refl k) refl,
        set-All m k v kvs f (subst (λ u. All (λ kv. get u kv.0 ≡ kv.1) kvs) e a),
      )

written-read :
    (m : List (String × HeaderValue)) (kvs : List (String × String))
    → Once kvs
    → Reads (set_all (some m) kvs) kvs
unfolding set_all
written-read m [] once = unfold Reads in tt
written-read m ((k, v) ∷ kvs) (fresh, once) =
    let (m', e) = set_all-some m kvs in
    set-Reads (set_all (some m) kvs) m' k v kvs e fresh (written-read m kvs once)

module _ (p : Propagator) where
  open p use {Context, written, read, continued, read_written}

  -- The trace context of a message comes back at the consumer: what Extract makes of the headers that
  -- Inject has written continues the sender's context. It writes no field twice. And a header that
  -- is not one of its fields, such as the tier of a retry, stays as it was.
  pub extract-inject :
      (here sender : Context) (headers : Table)
      → Once (written sender)
      → extract p here (inject p sender headers) ≡ continued here sender
  unfolding extract inject Reads
  extract-inject here sender none once =
      read_written here sender _ (written-read [] (written sender) once)
  extract-inject here sender (some m) once =
      read_written here sender _ (written-read m (written sender) once)

  pub inject-kept :
      (ctx : Context) (m : List (String × HeaderValue)) (key : String)
      → Fresh key (written ctx)
      → lookup_in key (inject p ctx (some m)) ≡ value_at key m
  unfolding inject
  inject-kept ctx m key fresh = lookup_in-set_all_other m key (written ctx) fresh
