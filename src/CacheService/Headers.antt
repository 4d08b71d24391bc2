-- ===== src/CacheService/Headers.antt =====
-- packages/core/src/adapters/cache-handler.ts and packages/core/src/utils/cache-get.ts: the headers
-- with the prefix, apart from the others.
use Prim.Native.Char.{code}
use Prim.Native.String
use text.Mathlib.TextLemmas.{nil-append, cons-append, append_cancel_left}
use adapters_api.Common.{
  ◌==◌, ◌≡◌, refl, sym, ap, ◌∙◌, arith, inl, inr, String, true, false, Option, none, some, [], ◌∷◌,
  ◌++◌, All, append_nil, append_assoc, str_eq, eq_iff, Bool-cases, Option-cases, if◌then◌else◌,
}
use adapters_api.Common.Assoc.{lookup, insert, has, lookup-insert, has-insert, IsUnique, All-insert}
use adapters_api.CacheService.{HeaderValue, HeaderMap, put_if, prefix}
use adapters_api.CacheService.Encode.{put_prefixed}
use adapters_api.CacheService.Decode.{strip, collect_from, collect_prefixed_headers}

strip-append : (p k : String) → strip p (String.◌++◌ p k) ≡ some k
unfolding strip
strip-append String.[] k = rw (nil-append k, strip) refl
strip-append (String.◌∷◌ c p) k =
    let here : (code c == code c) ≡ true = ground arith in
    rw (cons-append c p k, strip) (rw (here, strip-append p k) refl)

-- a header that is none of those with the prefix
abbrev pub IsPlain : String × HeaderValue → Type 0
IsPlain e = strip prefix e.0 ≡ none

unfoldable pub or_else : Option HeaderValue → Option HeaderValue → Option HeaderValue
or_else none other = other
or_else (some v) other = some v

pub or_else-none : (o : Option HeaderValue) → or_else o none ≡ o
unfolding or_else
or_else-none none = refl
or_else-none (some v) = refl

pub lookup-put_if :
    (k name : String) (o : Option HeaderValue) (m : HeaderMap)
    → lookup k (put_if name o m) ≡ (if str_eq name k then or_else o (lookup k m) else lookup k m)
unfolding put_if or_else
lookup-put_if k name none m = ground arith
lookup-put_if k name (some v) m = lookup-insert name k v m

-- the lookup of a header among those that were put
pub ruleset header_lookups = (lookup-put_if, lookup-insert, or_else-none)

prefixed_ne :
    (k name : String) → strip prefix name ≡ none → str_eq (String.◌++◌ prefix k) name ≡ false
prefixed_ne k name h = elim (Bool-cases (str_eq (String.◌++◌ prefix k) name)) [
  | inr e ↦ e
  | inl e ↦
      let same = (eq_iff (String.◌++◌ prefix k) name).0 e in
      ground (arith, sym (ap (strip prefix) same) ∙ strip-append prefix k, h)
]

pub lookup-put_prefixed :
    (name : String) (es m : HeaderMap)
    → strip prefix name ≡ none
    → lookup name (put_prefixed es m) ≡ lookup name m
unfolding put_prefixed
lookup-put_prefixed name [] m h = refl
lookup-put_prefixed name ((k, v) ∷ es) m h = ground (
  arith,
  lookup-put_prefixed name es (insert (String.◌++◌ prefix k) v m) h,
  lookup-insert (String.◌++◌ prefix k) name v m,
  prefixed_ne k name h,
)

-- the entries with the prefix, one after the other
unfoldable pub insert_all : HeaderMap → HeaderMap → HeaderMap
insert_all result [] = result
insert_all result ((k, v) ∷ es) = insert_all (insert k v result) es

prefixed_same : (j k : String) → str_eq (String.◌++◌ prefix j) (String.◌++◌ prefix k) ≡ str_eq j k
prefixed_same j k = elim (Bool-cases (str_eq j k)) [
  | inl e ↦ rw e (
      (eq_iff (String.◌++◌ prefix j) (String.◌++◌ prefix k)).1
        (ap (String.◌++◌ prefix) ((eq_iff j k).0 e)))
  | inr e ↦ elim (Bool-cases (str_eq (String.◌++◌ prefix j) (String.◌++◌ prefix k))) [
    | inr f ↦ f ∙ sym e
    | inl f ↦
        let same =
          append_cancel_left prefix j k
            ((eq_iff (String.◌++◌ prefix j) (String.◌++◌ prefix k)).0 f) in
        ground (arith, (eq_iff j k).1 same, e)
  ]
]

collect-plain : (r m : HeaderMap) → All IsPlain m → collect_from r m ≡ r
unfolding collect_from
collect-plain r [] _ = refl
collect-plain r ((k, v) ∷ m) (p, h) = rw (p, collect_from) (collect-plain r m h)

-- a header without the prefix is not collected
pub collect-insert_plain :
    (r : HeaderMap) (k : String) (v : HeaderValue) (m : HeaderMap)
    → strip prefix k ≡ none
    → collect_from r (insert k v m) ≡ collect_from r m
unfolding collect_from insert
collect-insert_plain r k v [] h = rw (h, collect_from) refl
collect-insert_plain r k v ((j, w) ∷ m) h = elim (Bool-cases (str_eq j k)) [
  | inl e ↦
      let same = ap (strip prefix) ((eq_iff j k).0 e) ∙ h in rw (e, h, same, collect_from) refl
  | inr e ↦ elim (Option-cases (strip prefix j)) [
    | inl f ↦ rw (e, f, collect_from) (collect-insert_plain r k v m h)
    | inr (name, f) ↦ rw (e, f, collect_from) (collect-insert_plain (insert name w r) k v m h)
  ]
]

-- a new header with the prefix is collected last
collect-insert_prefixed :
    (r : HeaderMap) (k : String) (v : HeaderValue) (m : HeaderMap)
    → has (String.◌++◌ prefix k) m ≡ false
    → collect_from r (insert (String.◌++◌ prefix k) v m) ≡ insert k v (collect_from r m)
unfolding collect_from insert has
collect-insert_prefixed r k v [] h = rw (strip-append prefix k, collect_from) refl
collect-insert_prefixed r k v ((j, w) ∷ m) h =
    let other : str_eq j (String.◌++◌ prefix k) ≡ false = ground (arith, h) in
    let rest : has (String.◌++◌ prefix k) m ≡ false = ground (arith, h) in
    elim (Option-cases (strip prefix j)) [
      | inl f ↦ rw (other, f, collect_from) (collect-insert_prefixed r k v m rest)
      | inr (name, f) ↦
          rw (other, f, collect_from) (collect-insert_prefixed (insert name w r) k v m rest)
    ]

-- none of the entries is there with the prefix
abbrev IsFresh : HeaderMap → HeaderMap → Type 0
IsFresh es m = All (λ (e : String × HeaderValue). has (String.◌++◌ prefix e.0) m ≡ false) es

IsFresh-insert :
    (k : String) (v : HeaderValue) (es m : HeaderMap)
    → has k es ≡ false
    → IsFresh es m
    → IsFresh es (insert (String.◌++◌ prefix k) v m)
unfolding has
IsFresh-insert k v [] m a f = tt
IsFresh-insert k v ((j, w) ∷ es) m a (f, fs) =
    let other : str_eq j k ≡ false = ground (arith, a) in
    (
      ground (
        arith,
        has-insert (String.◌++◌ prefix k) (String.◌++◌ prefix j) v m,
        prefixed_same k j,
        eq_iff j k,
        eq_iff k j,
        other,
        f,
      ),
      IsFresh-insert k v es m (ground (arith, a)) fs,
    )

collect-put_prefixed :
    (r es m : HeaderMap)
    → IsUnique es
    → IsFresh es m
    → collect_from r (put_prefixed es m) ≡ insert_all (collect_from r m) es
unfolding put_prefixed insert_all
collect-put_prefixed r [] m u f = refl
collect-put_prefixed r ((k, v) ∷ es) m (a, u) (f, fs) =
    collect-put_prefixed r es (insert (String.◌++◌ prefix k) v m) u (IsFresh-insert k v es m a fs)
    ∙ ap (λ c. insert_all c es) (collect-insert_prefixed r k v m f)

insert_new :
    (k : String) (v : HeaderValue) (m : HeaderMap)
    → has k m ≡ false
    → insert k v m ≡ m ++ (k, v) ∷ []
unfolding insert has
insert_new k v [] h = refl
insert_new k v ((j, w) ∷ m) h = ground (arith, insert_new k v m)

absent_after :
    (k : String) (v : HeaderValue) (r es : HeaderMap)
    → has k es ≡ false
    → All (λ (e : String × HeaderValue). has e.0 r ≡ false) es
    → All (λ (e : String × HeaderValue). has e.0 (insert k v r) ≡ false) es
unfolding has
absent_after k v r [] a f = tt
absent_after k v r ((j, w) ∷ es) a (f, fs) = (
  ground (arith, has-insert k j v r, eq_iff j k, eq_iff k j, a, f),
  absent_after k v r es (ground (arith, a)) fs,
)

insert_all-append :
    (r es : HeaderMap)
    → IsUnique es
    → All (λ (e : String × HeaderValue). has e.0 r ≡ false) es
    → insert_all r es ≡ r ++ es
unfolding insert_all
insert_all-append r [] u f = sym (append_nil r)
insert_all-append r ((k, v) ∷ es) (a, u) (f, fs) =
    insert_all-append (insert k v r) es u (absent_after k v r es a fs)
    ∙ ap (λ c. c ++ es) (insert_new k v r f)
    ∙ append_assoc r ((k, v) ∷ []) es

prefixed_absent :
    (k : String) (m : HeaderMap) → All IsPlain m → has (String.◌++◌ prefix k) m ≡ false
unfolding has
prefixed_absent k [] _ = refl
prefixed_absent k ((j, w) ∷ m) (p, h) = ground (
  arith,
  prefixed_ne k j p,
  prefixed_absent k m h,
  eq_iff j (String.◌++◌ prefix k),
  eq_iff (String.◌++◌ prefix k) j,
)

plain-IsFresh : (es m : HeaderMap) → All IsPlain m → IsFresh es m
plain-IsFresh [] m h = tt
plain-IsFresh ((k, v) ∷ es) m h = (prefixed_absent k m h, plain-IsFresh es m h)

none_in_nothing :
    (es : HeaderMap) → All (λ (e : String × HeaderValue). has {V = HeaderValue} e.0 [] ≡ false) es
unfolding has
none_in_nothing [] = tt
none_in_nothing (e ∷ es) = (refl, none_in_nothing es)

-- Headers that are put among plain ones, with the prefix, are collected again.
pub collect-put :
    (k : String) (v : HeaderValue) (es m : HeaderMap)
    → strip prefix k ≡ none
    → All IsPlain m
    → IsUnique es
    → collect_prefixed_headers (insert k v (put_prefixed es m)) ≡ es
unfolding collect_prefixed_headers
collect-put k v es m h p u =
    collect-insert_plain [] k v (put_prefixed es m) h
    ∙ collect-put_prefixed [] es m u (plain-IsFresh es m p)
    ∙ ap (λ c. insert_all c es) (collect-plain [] m p)
    ∙ insert_all-append [] es u (none_in_nothing es)

pub put_if-IsPlain :
    (k : String) (o : Option HeaderValue) (m : HeaderMap)
    → strip prefix k ≡ none
    → All IsPlain m
    → All IsPlain (put_if k o m)
unfolding put_if
put_if-IsPlain k none m h p = p
put_if-IsPlain k (some v) m h p = All-insert IsPlain k v m p h
