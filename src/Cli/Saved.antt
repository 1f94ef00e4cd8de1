-- ===== src/Cli/Saved.antt =====
-- What is saved at one start is found at the next.
use yasin_press_rewrite.Base.{
  ◌≡◌, refl, sym, ap, ◌∙◌, subst, ◌⊎◌, inl, inr, String, Bool, true, false, List, [], ◌∷◌, some,
  Dict, lookup, lookup-put, put, map, any, arith, In, In-append, In-append_left, In-append_right,
  Bool-cases, Option-cases, or-true, ==_iff, ==_refl, ◌==◌, string_eq, if◌then◌else◌,
}
use yasin_press_rewrite.Cli.Credentials.{
  Lines, token_key, channel_key, load_line, load_saved, line_key, saved_line, missing_line,
  save_saved,
}

-- The line of a key and its value is read as them.
pub record IsEntry (l : Lines) (key value : String) : Type 0 where
  pub split : l.split (l.entry key value) ≡ some (key, value)
  pub stripped : l.strip key ≡ key
  pub shown : l.is_comment (l.entry key value) ≡ false
  pub whole : l.unquote (l.strip value) ≡ value

module _ (l : Lines) (k v : String) (entered : IsEntry l k v) where
  abbrev line : String
  line = l.entry k v

  load_line-entry : (d : Dict String String) → lookup k (load_line l line d) ≡ some v
  unfolding load_line
  load_line-entry d =
      rw (entered.split, entered.shown, entered.stripped, entered.whole, load_line)
        (lookup-put k k v d ∙ rw (==_refl k, if◌then◌else◌) refl)

  line_key-entry : line_key l line ≡ k
  unfolding line_key
  line_key-entry = rw (entered.split, line_key) entered.stripped

  load_line-other :
      (other : String) (d : Dict String String)
      → (line_key l other == k) ≡ false
      → lookup k (load_line l other d) ≡ lookup k d
  unfolding load_line line_key
  load_line-other other d h = elim (Option-cases (l.split other)) [
    | inl e ↦ rw (e, load_line) refl
    | inr ((key, value), e) ↦
        rw (e, load_line) (by_comment (l.is_comment other) key value (rw (e, line_key) at h))
  ]
    where
      apart : (key : String) → (key == k) ≡ false → (k == key) ≡ false
      apart key e = ground (arith, e, ==_iff key k, ==_iff k key)

      by_comment :
          (b : Bool) (key value : String)
          → (l.strip key == k) ≡ false
          → lookup k (if b then d else put (l.strip key) (l.unquote (l.strip value)) d) ≡ lookup k d
      by_comment true key value e = refl
      by_comment false key value e =
          lookup-put k (l.strip key) (l.unquote (l.strip value)) d
          ∙ rw (apart (l.strip key) e, if◌then◌else◌) refl

  -- The line of the key, or one of another key.
  abbrev IsGood : String → Type 0
  IsGood other = (other ≡ line) ⊎ ((line_key l other == k) ≡ false)

  load_saved-kept :
      (lines : List String) (d : Dict String String)
      → ((x : String) → In x lines → IsGood x)
      → lookup k d ≡ some v
      → lookup k (load_saved l lines d) ≡ some v
  unfolding load_saved
  load_saved-kept [] d good h = h
  load_saved-kept (x ∷ lines) d good h =
      load_saved-kept lines (load_line l x d) (λ y m. good y (inr m))
        (elim (good x (inl refl)) [
          | inl e ↦ ap (λ y. lookup k (load_line l y d)) e ∙ load_line-entry d
          | inr e ↦ load_line-other x d e ∙ h
        ])

  load_saved-found :
      (lines : List String) (d : Dict String String)
      → ((x : String) → In x lines → IsGood x)
      → In line lines
      → lookup k (load_saved l lines d) ≡ some v
  unfolding load_saved
  load_saved-found [] d good m = absurd m
  load_saved-found (x ∷ lines) d good (inl e) =
      load_saved-kept lines (load_line l x d) (λ y m. good y (inr m))
        (ap (λ y. lookup k (load_line l y d)) (sym e) ∙ load_line-entry d)
  load_saved-found (x ∷ lines) d good (inr m) =
      load_saved-found lines (load_line l x d) (λ y n. good y (inr n)) m

  In-map_line :
      (f : String → String) (y : String) (xs : List String)
      → In y (map f xs)
      → (x : String) × (y ≡ f x)
  In-map_line f y [] h = elim h [ ]
  In-map_line f y (x ∷ xs) (inl e) = (x, e)
  In-map_line f y (x ∷ xs) (inr h) = In-map_line f y xs h

  -- A rewrite that puts the line of the key where the key was is found among the lines.
  In-rewritten :
      (f : String → String)
      → ((x : String) → (line_key l x == k) ≡ true → f x ≡ line)
      → (xs : List String) → any (λ x. line_key l x == k) xs ≡ true
      → In line (map f xs)
  unfolding any
  In-rewritten f at_key [] h = absurd (ground (arith, h))
  In-rewritten f at_key (x ∷ xs) h = elim (or-true (line_key l x == k) _ h) [
    | inl e ↦ inl (sym (at_key x e))
    | inr e ↦ inr (In-rewritten f at_key xs e)
  ]

module _ (l : Lines) (token channel : String) (t : IsEntry l token_key token)
    (c : IsEntry l channel_key channel) where
  -- Every line that is saved is that of the key, or one of another key.
  saved_line-IsGood :
      (line : String)
      → IsGood l token_key token t (saved_line l token channel line)
        × IsGood l channel_key channel c (saved_line l token channel line)
  unfolding saved_line
  saved_line-IsGood line =
      by_keys (line_key l line == token_key) (line_key l line == channel_key) refl refl
    where
      by_keys :
          (p q : Bool)
          → (line_key l line == token_key) ≡ p
          → (line_key l line == channel_key) ≡ q
          → IsGood l token_key token t (
              if p
              then l.entry token_key token
              else if q
              then l.entry channel_key channel
              else line)
            × IsGood l channel_key channel c (
                if p
                then l.entry token_key token
                else if q
                then l.entry channel_key channel
                else line)
      by_keys true q e f = (inl refl, inr (rw (line_key-entry l token_key token t) refl))
      by_keys false true e f = (inr (rw (line_key-entry l channel_key channel c) refl), inl refl)
      by_keys false false e f = (inr e, inr f)

  at_token :
      (x : String)
      → (line_key l x == token_key) ≡ true
      → saved_line l token channel x ≡ l.entry token_key token
  unfolding saved_line
  at_token x e = rw (e, if◌then◌else◌) refl

  at_channel :
      (x : String)
      → (line_key l x == channel_key) ≡ true
      → saved_line l token channel x ≡ l.entry channel_key channel
  unfolding saved_line
  at_channel x e = rw ((==_iff (line_key l x) channel_key).0 e, if◌then◌else◌) refl

  In-missing_line :
      (key value : String) (lines : List String) (x : String)
      → In x (missing_line l key value lines)
      → x ≡ l.entry key value
  unfolding missing_line
  In-missing_line key value lines x m = by_any (any (λ y. line_key l y == key) lines) m
    where
      by_any : (b : Bool) → In x (if b then [] else l.entry key value ∷ []) → x ≡ l.entry key value
      by_any true m = absurd m
      by_any false (inl e) = e
      by_any false (inr m) = absurd m

  save_saved-IsGood :
      (lines : List String) (x : String)
      → In x (save_saved l token channel lines)
      → IsGood l token_key token t x × IsGood l channel_key channel c x
  unfolding save_saved
  save_saved-IsGood lines x m = elim (In-append x (map (saved_line l token channel) lines) _ m) [
    | inl old ↦
        let (y, e) = In-map_line l token_key token t (saved_line l token channel) x lines old in
        subst (λ z. IsGood l token_key token t z × IsGood l channel_key channel c z) (sym e)
          (saved_line-IsGood y)
    | inr new ↦ elim (In-append x (missing_line l token_key token lines) _ new) [
      | inl i ↦ (
        inl (In-missing_line token_key token lines x i),
        inr (
            rw (In-missing_line token_key token lines x i, line_key-entry l token_key token t)
              refl),
      )
      | inr i ↦ (
        inr (
            rw
              (
                In-missing_line channel_key channel lines x i,
                line_key-entry l channel_key channel c,
              )
              refl),
        inl (In-missing_line channel_key channel lines x i),
      )
    ]
  ]

  missing_line-In :
      (key value : String) (lines : List String)
      → any (λ y. line_key l y == key) lines ≡ false
      → In (l.entry key value) (missing_line l key value lines)
  unfolding missing_line
  missing_line-In key value lines e = rw (e, if◌then◌else◌) (inl refl)

  token_saved :
      (lines : List String) → In (l.entry token_key token) (save_saved l token channel lines)
  unfolding save_saved
  token_saved lines = elim (Bool-cases (any (λ y. line_key l y == token_key) lines)) [
    | inl e ↦
        In-append_left _ _ _
          (In-rewritten l token_key token t (saved_line l token channel) at_token lines e)
    | inr e ↦
        In-append_right _ (map (saved_line l token channel) lines) _
          (In-append_left _ _ _ (missing_line-In token_key token lines e))
  ]

  channel_saved :
      (lines : List String) → In (l.entry channel_key channel) (save_saved l token channel lines)
  unfolding save_saved
  channel_saved lines = elim (Bool-cases (any (λ y. line_key l y == channel_key) lines)) [
    | inl e ↦
        In-append_left _ _ _
          (In-rewritten l channel_key channel c (saved_line l token channel) at_channel lines e)
    | inr e ↦ In-append_right _ (map (saved_line l token channel) lines) _ (
        In-append_right _ (missing_line l token_key token lines) _
          (missing_line-In channel_key channel lines e))
  ]

  -- The token and the channel that save_saved writes into a file are those that load_saved reads from
  -- it, whatever lines the file had.
  pub load_saved-save_saved :
      (lines : List String)
      → (lookup token_key (load_saved l (save_saved l token channel lines) []) ≡ some token)
        × (lookup channel_key (load_saved l (save_saved l token channel lines) []) ≡ some channel)
  unfolding save_saved
  load_saved-save_saved lines = (
    load_saved-found l token_key token t (save_saved l token channel lines) []
        (λ x m. (save_saved-IsGood lines x m).0) (token_saved lines),
    load_saved-found l channel_key channel c (save_saved l token channel lines) []
        (λ x m. (save_saved-IsGood lines x m).1) (channel_saved lines),
  )
