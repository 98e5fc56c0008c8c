-- ===== src/Trie/Picking.antt =====
-- Which entries a search by a pattern selects, and how a list of entries is picked over.
use rust_node.Base.{
  String, str_eq, ◌≡◌, refl, ap, ◌∙◌, Bool, true, false, ◌&&◌, not, List, [], ◌∷◌, ◌++◌, map,
  map-append, if◌then◌else◌, filter, filter-append, arith,
}
use rust_node.Trie.Entries.{Key, exactly, all_left, key_eq, below_key, here}

-- Whether a search by a pattern gives the handlers of an entry: ">" takes all that is left, also
-- nothing, "*" any one segment that was registered, and a text only itself.
unfoldable pub selected : List String → List Key → Bool
selected [] [] = true
selected [] (k ∷ ks) = false
selected (s ∷ ss) [] = if str_eq s "*" then false else str_eq s ">"
selected (s ∷ ss) (k ∷ ks) =
    let deeper = selected ss ks in
    if str_eq s "*"
    then not (key_eq k all_left) && deeper
    else if str_eq s ">"
    then true
    else key_eq k (exactly s) && deeper

module _ {ℓ} {T : Type ℓ} where
  abbrev pub picks : List String → List (List Key × T) → List T
  picks segments es = map (λ e. e.1) (filter (λ e. selected segments e.0) es)

  pub picks-append :
      (segments : List String) (es fs : List (List Key × T))
      → picks segments (es ++ fs) ≡ picks segments es ++ picks segments fs
  picks-append segments es fs =
      ap (map _) (filter-append (λ e. selected segments e.0) es fs) ∙ map-append _ _ _

  pub picks-append_five :
      (segments : List String) (a b c d e : List (List Key × T))
      → picks segments (a ++ (b ++ (c ++ (d ++ e))))
        ≡ picks segments a
          ++ (picks segments b ++ (picks segments c ++ (picks segments d ++ picks segments e)))
  picks-append_five ss a b c d e =
      picks-append ss a (b ++ (c ++ (d ++ e)))
      ∙ ap (◌++◌ (picks ss a)) (
          picks-append ss b (c ++ (d ++ e))
          ∙ ap (◌++◌ (picks ss b))
              (picks-append ss c (d ++ e) ∙ ap (◌++◌ (picks ss c)) (picks-append ss d e)))

  pub picks-here :
      (segments : List String) (ks : List Key) (hs : List T)
      → picks segments (here ks hs) ≡ (if selected segments ks then hs else [])
  picks-here segments ks [] = ground arith
  picks-here segments ks (h ∷ hs) = ground (arith, picks-here segments ks hs)

  pub picks_end : (k : Key) (es : List (List Key × T)) → picks [] (below_key k es) ≡ []
  unfolding selected
  picks_end k [] = refl
  picks_end k (e ∷ es) = picks_end k es

  -- Below one key: nothing, or what the rest of the pattern picks.
  pub picks-below_key :
      (s : String) (ss : List String) (k : Key) (es : List (List Key × T))
      → str_eq s ">" ≡ false
      → picks (s ∷ ss) (below_key k es) ≡ (
          if (if str_eq s "*" then not (key_eq k all_left) else key_eq k (exactly s))
          then picks ss es
          else [])
  unfolding selected
  picks-below_key s ss k [] h = ground arith
  picks-below_key s ss k (e ∷ es) h = ground (arith, picks-below_key s ss k es)

  unfoldable pub values : List (List Key × T) → List T
  values = map (λ e. e.1)

  pub values-here : (ks : List Key) (hs : List T) → values (here ks hs) ≡ hs
  unfolding values
  values-here ks [] = refl
  values-here ks (h ∷ hs) = ap (◌∷◌ h) (values-here ks hs)

  pub values-below_key : (k : Key) (es : List (List Key × T)) → values (below_key k es) ≡ values es
  unfolding values
  values-below_key k [] = refl
  values-below_key k (e ∷ es) = ap (◌∷◌ e.1) (values-below_key k es)

  pub values-append : (es fs : List (List Key × T)) → values (es ++ fs) ≡ values es ++ values fs
  unfolding values
  values-append es fs = map-append _ es fs
