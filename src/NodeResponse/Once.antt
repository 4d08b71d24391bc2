-- ===== src/NodeResponse/Once.antt =====
-- packages/core/src/http/openNextResponse.ts: in which order a response sends.
use mathlib.Core.Path.{subst}
use adapters_api.Common.{
  ℕ, zero, suc, max, arith, sym, ◌+◌, ◌≡◌, refl, Bool, true, false, ◌&&◌, some, List, [], ◌∷◌,
  length, ◌==◌, Bool-cases, ap, ◌∙◌, inl, inr, if◌then◌else◌,
}
use adapters_api.Common.Assoc.{spread}
use adapters_api.NodeResponse.{Headers, Env, Response, new_response}
use adapters_api.NodeResponse.Flush.{
  merge_headers, merge_cookies, write_headers, get_fixed_headers, flush_headers, write_head,
  ensure_headers, transform, push, something, finish,
}
use adapters_api.NodeResponse.Steps.{
  calls_after, Step, set, append, delete, go_to, fix, flush, head, Reachable, created, called,
  written, IsSame, set_header-IsSame, remove_header-IsSame, append_header-IsSame, redirect-IsSame,
  get_fixed_headers-IsSame,
}

abbrev is_called : ℕ → Bool
is_called zero = false
is_called (suc _) = true

some_call : (n : ℕ) → is_called n ≡ true → n ≡ max n 1
some_call zero e = cc
some_call (suc n) e = omega arith

no_call : (n : ℕ) → is_called n ≡ false → suc n ≡ max n 1
no_call zero e = refl
no_call (suc n) e = cc

module _ (env : Env) where
  unfoldable pub total : List (List ℕ) → ℕ
  total [] = 0
  total (chunk ∷ chunks) = total chunks + length chunk

  -- how often `writeHeaders` is called, if the headers are sent that often
  abbrev pub calls_of : ℕ → ℕ
  calls_of n = if env.has_stream_creator then n else 0

  abbrev pub is_started : List (List ℕ) → Bool → Bool
  is_started [] sent = true
  is_started (_ ∷ _) sent = sent

  -- the headers are sent as often as given and before the first chunk, and the chunks are pushed as they
  -- are written
  pub record IsOrdered (chunks : List (List ℕ)) (n : ℕ) (r : Response) : Type 0 where
    pub sent : length r.sent ≡ calls_of n
    pub begun : r.headers_sent ≡ is_called n
    pub started : is_started chunks r.headers_sent ≡ true
    pub pushed : r.pushed ≡ chunks
    pub counted : r.body_length ≡ total chunks

  IsOrdered-IsSame :
      {chunks : List (List ℕ)} {n : ℕ} {r t : Response}
      → IsSame env r t
      → IsOrdered chunks n r
      → IsOrdered chunks n t
  IsOrdered-IsSame same v = record {
    sent = ap length same.sent ∙ v.sent;
    begun = same.headers_sent ∙ v.begun;
    started = simp same.headers_sent v.started;
    pushed = same.pushed ∙ v.pushed;
    counted = same.body_length ∙ v.counted;
  }

  started_by : (chunks : List (List ℕ)) → is_started chunks true ≡ true
  started_by [] = refl
  started_by (_ ∷ _) = refl

  write_headers-IsOrdered :
      (chunks : List (List ℕ)) (n : ℕ) (r : Response)
      → length r.sent ≡ calls_of n
      → r.headers_sent ≡ true
      → r.pushed ≡ chunks
      → r.body_length ≡ total chunks
      → IsOrdered chunks (suc n) (write_headers env r)
  unfolding write_headers
  write_headers-IsOrdered chunks n r before sent p c = elim (Bool-cases env.has_stream_creator) [
    | inl e ↦ simp e (record {
      sent = simp e (ap suc (before ∙ simp e refl));
      begun = sent;
      started = rw sent (started_by chunks);
      pushed = p;
      counted = c;
    })
    | inr e ↦ simp e (record {
      sent = simp e (before ∙ simp e refl);
      begun = sent;
      started = rw sent (started_by chunks);
      pushed = p;
      counted = c;
    })
  ]

  flush_headers-IsOrdered :
      (chunks : List (List ℕ)) (n : ℕ) (r : Response)
      → IsOrdered chunks n r
      → IsOrdered chunks (suc n) (flush_headers env r)
  unfolding flush_headers
  flush_headers-IsOrdered chunks n r v =
      let merged = record r {
        headers_sent = true;
        headers = merge_headers env env.initial_headers r.headers;
        cookies = merge_cookies env r.cookies;
      } in
      let same = get_fixed_headers-IsSame env merged in
      write_headers-IsOrdered chunks n (get_fixed_headers env merged) (ap length same.sent ∙ v.sent)
        same.headers_sent (same.pushed ∙ v.pushed) (same.body_length ∙ v.counted)

  write_head-IsOrdered :
      (chunks : List (List ℕ)) (n : ℕ) (r : Response) (status : ℕ) (given : Headers)
      → IsOrdered chunks n r
      → IsOrdered chunks (suc n) (write_head env status given r)
  unfolding write_head
  write_head-IsOrdered chunks n r status given v =
      let ready = record r { headers = spread r.headers given; status_code = some status } in
      let same : IsSame env r ready = record {
        headers_sent = refl;
        sent = refl;
        pushed = refl;
        body_length = refl;
      } in
      flush_headers-IsOrdered chunks n ready (IsOrdered-IsSame same v)

  Step-IsOrdered :
      {chunks : List (List ℕ)} {n : ℕ} {by_hand : Bool} {r t : Response}
      → Step env r by_hand t
      → IsOrdered chunks n r
      → IsOrdered chunks (calls_after by_hand n) t
  Step-IsOrdered (set name value) v = IsOrdered-IsSame (set_header-IsSame env name value _) v
  Step-IsOrdered (append name value) v = IsOrdered-IsSame (append_header-IsSame env name value _) v
  Step-IsOrdered (delete name) v = IsOrdered-IsSame (remove_header-IsSame env name _) v
  Step-IsOrdered (go_to destination status) v =
      IsOrdered-IsSame (redirect-IsSame env destination status _) v
  Step-IsOrdered fix v = IsOrdered-IsSame (get_fixed_headers-IsSame env _) v
  Step-IsOrdered flush v = flush_headers-IsOrdered _ _ _ v
  Step-IsOrdered (head status given) v = write_head-IsOrdered _ _ _ status given v

  ensure_headers-IsOrdered :
      (chunks : List (List ℕ)) (n : ℕ) (r : Response)
      → IsOrdered chunks n r
      → IsOrdered chunks (max n 1) (ensure_headers env r)
        × ((ensure_headers env r).headers_sent ≡ true)
  unfolding ensure_headers
  ensure_headers-IsOrdered chunks n r v = elim (Bool-cases r.headers_sent) [
    | inl e ↦
        let same = subst (λ k. IsOrdered chunks k r) (some_call n (sym v.begun ∙ e)) v in
        (simp e same, simp e refl)
    | inr e ↦
        let flushed = flush_headers-IsOrdered chunks n r v in
        let as_many =
          subst (λ k. IsOrdered chunks k (flush_headers env r)) (no_call n (sym v.begun ∙ e))
            flushed in
        (simp e as_many, simp e flushed.begun)
  ]

  transform-IsOrdered :
      (chunk : List ℕ) (chunks : List (List ℕ)) (n : ℕ) (r : Response)
      → IsOrdered chunks n r
      → IsOrdered (chunk ∷ chunks) (max n 1) (transform env chunk r)
  unfolding transform total
  transform-IsOrdered chunk chunks n r v =
      let (ready, sent) = ensure_headers-IsOrdered chunks n r v in
      record {
        sent = ready.sent;
        begun = ready.begun;
        started = sent;
        pushed = ap (λ p. chunk ∷ p) ready.pushed;
        counted = ap (λ n. n + length chunk) ready.counted;
      }

  -- However the methods are called, the headers are sent at each flush by hand, and by a chunk only if
  -- they have not been sent, so that they are before the first chunk; and the chunks are pushed as they
  -- are written, in their order, with the sum of their lengths in `bodyLength`.
  pub Reachable-IsOrdered :
      {chunks : List (List ℕ)} {n : ℕ} {r : Response}
      → Reachable env chunks n r
      → IsOrdered chunks n r
  unfolding new_response total
  Reachable-IsOrdered (created status) = record {
    sent = elim (Bool-cases env.has_stream_creator) [ inl e ↦ simp e refl | inr e ↦ simp e refl ];
    begun = refl;
    started = refl;
    pushed = refl;
    counted = refl;
  }
  Reachable-IsOrdered (called earlier one_step) =
      Step-IsOrdered one_step (Reachable-IsOrdered earlier)
  Reachable-IsOrdered (written chunk {chunks} {n} {r} earlier) =
      transform-IsOrdered chunk chunks n r (Reachable-IsOrdered earlier)

  -- the chunks that a finished response has pushed
  unfoldable pub body_of : List (List ℕ) → List (List ℕ)
  body_of chunks = if total chunks == 0 && env.force_non_empty then something ∷ chunks else chunks

  ended :
      (forced : Bool) (chunks : List (List ℕ)) (n : ℕ) (r : Response)
      → IsOrdered chunks n r
      → r.headers_sent ≡ true
      → ((if forced then push something r else r).headers_sent ≡ true)
        × (length (if forced then push something r else r).sent ≡ calls_of n)
        × ((if forced then push something r else r).pushed
            ≡ (if forced then something ∷ chunks else chunks))
  ended true chunks n r v sent = (sent, v.sent, ap (λ p. something ∷ p) v.pushed)
  ended false chunks n r v sent = (sent, v.sent, v.pushed)

  -- A response that ends has sent its headers, and its body is the chunks that were written, in their
  -- order, or `SOMETHING` if they are empty and the environment asks for it. If there is a stream
  -- creator, `writeHeaders` was called at each flush by hand, and by a chunk or the end only if there
  -- was no call before: exactly once, unless the headers are flushed by hand again after they were sent.
  pub finish_once :
      (chunks : List (List ℕ)) (n : ℕ) (r : Response)
      → Reachable env chunks n r
      → ((finish env r).headers_sent ≡ true)
        × (length (finish env r).sent ≡ (if env.has_stream_creator then max n 1 else 0))
        × ((finish env r).pushed ≡ body_of chunks)
  unfolding finish body_of
  finish_once chunks n r reachable =
      let (ready, sent) = ensure_headers-IsOrdered chunks n r (Reachable-IsOrdered reachable) in
      let (begun, calls, body) =
        ended ((ensure_headers env r).body_length == 0 && env.force_non_empty) chunks (max n 1)
          (ensure_headers env r) ready sent in
      let forced =
        λ (n : ℕ). if n == 0 && env.force_non_empty then something ∷ chunks else chunks in
      (begun, calls, body ∙ ap forced ready.counted)
