-- ===== src/Images/Matches.antt =====
-- packages/cloudflare/src/cli/templates/images.ts: what the patterns of local and remote URLs ask for.
use adapters_api.Common.{
  ◌≡◌, ◌⊎◌, inl, inr, refl, ap, arith, true, Option, none, some, List, [], ◌∷◌, ◌++◌, Bool-cases,
  ==_iff,
}
use adapters_api.Common.Text.{Text, same_text}
use adapters_api.Images.{Platform, RemotePattern, LocalPattern, Url}
use adapters_api.Images.Params.{
  parse_relative_url, RelativeUrl, without_colon, unset_or_same, match_local_pattern,
  any_local_match, has_local_match, same_protocol, hostname_matches, match_remote_pattern,
  has_remote_match,
}

same_text_sound : (a b : Text) → same_text a b ≡ true → a ≡ b
unfolding same_text
same_text_sound [] [] h = refl
same_text_sound [] (y ∷ b) h = ground arith
same_text_sound (x ∷ a) [] h = ground arith
same_text_sound (x ∷ a) (y ∷ b) h =
    let same : x ≡ y = ground (arith, ==_iff x y) in
    rw (same, same_text_sound a b (ground arith)) refl

-- an option that is not set, or set to the text
abbrev pub IsUnsetOr : Option Text → Text → Type 0
IsUnsetOr o t = (o ≡ none) ⊎ (o ≡ some t)

unset_or_same-IsUnsetOr : (o : Option Text) (t : Text) → unset_or_same o t ≡ true → IsUnsetOr o t
unfolding unset_or_same
unset_or_same-IsUnsetOr none t h = inl refl
unset_or_same-IsUnsetOr (some u) t h = inr (ap some (same_text_sound u t h))

-- the protocols are the same, but for a colon at the end
abbrev pub IsProtocol : Option Text → Text → Type 0
IsProtocol none t = Unit
IsProtocol (some u) t = without_colon u ≡ without_colon t

module _ (p : Platform) where
  same_protocol-IsProtocol :
      (o : Option Text) (t : Text) → same_protocol p o t ≡ true → IsProtocol o t
  unfolding same_protocol
  same_protocol-IsProtocol none t h = tt
  same_protocol-IsProtocol (some u) t h = same_text_sound (without_colon u) (without_colon t) h

  -- A local pattern matches: its search, if it has one, is that of the URL, and the path passes the
  -- regular expression.
  pub record IsLocalMatch (pattern : LocalPattern) (url : RelativeUrl) : Type 0 where
    pub search : IsUnsetOr pattern.search url.search
    pub pathname : p.regex_test pattern.pathname url.pathname ≡ true

  -- A remote pattern matches: its protocol, port and search, as far as it has them, are those of the URL,
  -- and the host name, which it must have, and the path pass their regular expressions.
  pub record IsRemoteMatch (pattern : RemotePattern) (url : Url) : Type 0 where
    pub protocol : IsProtocol pattern.protocol url.protocol
    pub port : IsUnsetOr pattern.port url.port
    pub hostname :
        (source : Text) × (pattern.hostname ≡ some source)
        × (p.regex_test source url.hostname ≡ true)
    pub search : IsUnsetOr pattern.search url.search
    pub pathname : p.regex_test pattern.pathname url.pathname ≡ true

  match_local_pattern-IsLocalMatch :
      (pattern : LocalPattern) (url : RelativeUrl)
      → match_local_pattern p pattern url ≡ true
      → IsLocalMatch pattern url
  unfolding match_local_pattern
  match_local_pattern-IsLocalMatch pattern url h = record {
    search = unset_or_same-IsUnsetOr pattern.search url.search (ground arith);
    pathname = ground arith;
  }

  hostname_matches-source :
      (o : Option Text) (name : Text)
      → hostname_matches p o name ≡ true
      → (source : Text) × (o ≡ some source) × (p.regex_test source name ≡ true)
  unfolding hostname_matches
  hostname_matches-source none name h = ground arith
  hostname_matches-source (some source) name h = (source, refl, h)

  match_remote_pattern-IsRemoteMatch :
      (pattern : RemotePattern) (url : Url)
      → match_remote_pattern p pattern url ≡ true
      → IsRemoteMatch pattern url
  unfolding match_remote_pattern
  match_remote_pattern-IsRemoteMatch pattern url h = record {
    protocol = same_protocol-IsProtocol pattern.protocol url.protocol (ground arith);
    port = unset_or_same-IsUnsetOr pattern.port url.port (ground arith);
    hostname = hostname_matches-source pattern.hostname url.hostname (ground arith);
    search = unset_or_same-IsUnsetOr pattern.search url.search (ground arith);
    pathname = ground arith;
  }

  -- one of the patterns matches the URL
  abbrev pub HasLocal : List LocalPattern → RelativeUrl → Type 0
  HasLocal patterns url =
      (before after : List LocalPattern) × (pattern : LocalPattern) × (patterns
        ≡ before ++ pattern ∷ after)
      × IsLocalMatch pattern url

  abbrev pub HasRemote : List RemotePattern → Url → Type 0
  HasRemote patterns url =
      (before after : List RemotePattern) × (pattern : RemotePattern) × (patterns
        ≡ before ++ pattern ∷ after)
      × IsRemoteMatch pattern url

  any_local_match-HasLocal :
      (patterns : List LocalPattern) (url : RelativeUrl)
      → any_local_match p patterns url ≡ true
      → HasLocal patterns url
  unfolding any_local_match
  any_local_match-HasLocal [] url h = ground arith
  any_local_match-HasLocal (pattern ∷ patterns) url h =
      elim (Bool-cases (match_local_pattern p pattern url)) [
        | inl e ↦ ([], patterns, pattern, refl, match_local_pattern-IsLocalMatch pattern url e)
        | inr e ↦
            let (before, after, found, split, match) =
              any_local_match-HasLocal patterns url (ground arith) in
            (pattern ∷ before, after, found, ap (◌∷◌ pattern) split, match)
      ]

  pub has_local_match-HasLocal :
      (patterns : List LocalPattern) (url : Text)
      → has_local_match p patterns url ≡ true
      → HasLocal patterns (parse_relative_url url)
  unfolding has_local_match
  has_local_match-HasLocal patterns url h =
      any_local_match-HasLocal patterns (parse_relative_url url) h

  pub has_remote_match-HasRemote :
      (patterns : List RemotePattern) (url : Url)
      → has_remote_match p patterns url ≡ true
      → HasRemote patterns url
  unfolding has_remote_match
  has_remote_match-HasRemote [] url h = ground arith
  has_remote_match-HasRemote (pattern ∷ patterns) url h =
      elim (Bool-cases (match_remote_pattern p pattern url)) [
        | inl e ↦ ([], patterns, pattern, refl, match_remote_pattern-IsRemoteMatch pattern url e)
        | inr e ↦
            let (before, after, found, split, match) =
              has_remote_match-HasRemote patterns url (ground arith) in
            (pattern ∷ before, after, found, ap (◌∷◌ pattern) split, match)
      ]
