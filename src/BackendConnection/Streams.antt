-- ===== src/BackendConnection/Streams.antt =====
-- What a connection emits of the bytes that come.
use mathlib.Core.List.{append_assoc, append-nil, map-append}
use thread_link.Prelude.{
  ℕ, ◌≡◌, refl, sym, ap, subst, ◌∙◌, inl, inr, Bool, Bool-cases, true, false, List, [], ◌∷◌, ◌++◌,
  map, arith,
}
use thread_link.Wire.{PushResult, push, receive}
use thread_link.BackendConnection.{
  Connection, Emission, destroyed, Utf8, wired, event_of, on_data, close_connection, Happening,
  data_came, happen, happen_all,
}

abbrev pub all_came : List (List ℕ) → List Happening
all_came chunks = map data_came chunks

abbrev pub end_of : Bool → List Emission
end_of true = destroyed ∷ []
end_of false = []

module _ (utf8 : Utf8) (max : ℕ) where
  came-closed :
      (chunk : List ℕ) (c : Connection) → c.closed ≡ true → happen utf8 max c (data_came chunk) ≡ c
  unfolding happen
  came-closed chunk c h = ground arith

  happen_all-closed :
      (chunks : List (List ℕ)) (c : Connection)
      → c.closed ≡ true
      → happen_all utf8 max c (all_came chunks) ≡ c
  unfolding happen_all
  happen_all-closed [] c h = refl
  happen_all-closed (chunk ∷ chunks) c h =
      ap (λ c'. happen_all utf8 max c' (all_came chunks)) (came-closed chunk c h)
      ∙ happen_all-closed chunks c h

  -- A chunk that ends in an oversized header, and one that does not.
  came_oversized :
      (chunk : List ℕ) (c : Connection)
      → c.socket ≡ wired
      → c.closed ≡ false
      → (push max c.decoder chunk).0.too_large ≡ true
      → let (r, decoder) = push max c.decoder chunk in
        happen utf8 max c (data_came chunk) ≡ record c {
          decoder = decoder;
          closed = true;
          emitted = (c.emitted ++ map (event_of utf8) r.frames) ++ destroyed ∷ [];
        }
  unfolding happen on_data close_connection
  came_oversized chunk c w o e = ground arith

  came_whole :
      (chunk : List ℕ) (c : Connection)
      → c.socket ≡ wired
      → c.closed ≡ false
      → (push max c.decoder chunk).0.too_large ≡ false
      → let (r, decoder) = push max c.decoder chunk in
        happen utf8 max c (data_came chunk)
        ≡ record c { decoder = decoder; emitted = c.emitted ++ map (event_of utf8) r.frames }
  unfolding happen on_data
  came_whole chunk c w o e = ground arith

  abbrev Emitted : Connection → PushResult → Connection → Type 0
  Emitted c r c' =
      (c'.emitted ≡ c.emitted ++ (map (event_of utf8) r.frames ++ end_of r.too_large))
      × (c'.closed ≡ r.too_large)

  came_twice :
      (c : Connection) (xs ys : List (List ℕ)) (end : List Emission)
      → (c.emitted ++ map (event_of utf8) xs) ++ (map (event_of utf8) ys ++ end)
        ≡ c.emitted ++ (map (event_of utf8) (xs ++ ys) ++ end)
  came_twice c xs ys end = rw (
    map-append (event_of utf8) xs ys,
    append_assoc c.emitted (map (event_of utf8) xs) (map (event_of utf8) ys ++ end),
    append_assoc (map (event_of utf8) xs) (map (event_of utf8) ys) end,
  )

  Emitted-subst :
      (c : Connection) (r r' : PushResult) (c₁ c₂ : Connection)
      → r ≡ r'
      → c₁ ≡ c₂
      → Emitted c r' c₂
      → Emitted c r c₁
  Emitted-subst c r r' c₁ c₂ p q h =
      subst (λ r. Emitted c r c₁) (sym p) (subst (Emitted c r') (sym q) h)

  pub Emitted-came :
      (chunks : List (List ℕ)) (c : Connection)
      → c.socket ≡ wired
      → c.closed ≡ false
      → Emitted c (receive max c.decoder chunks) (happen_all utf8 max c (all_came chunks))
  unfolding happen_all receive
  Emitted-came [] c w o = (sym (append-nil c.emitted), o)
  Emitted-came (chunk ∷ chunks) c w o =
      let (r, decoder) = push max c.decoder chunk in
      let m = map (event_of utf8) r.frames in
      elim (Bool-cases r.too_large) [
        | inl e ↦
            let c' = record c {
              decoder = decoder;
              closed = true;
              emitted = (c.emitted ++ m) ++ destroyed ∷ [];
            } in
            Emitted-subst c _ r _ c' (rw e refl)
              (ap (λ c. happen_all utf8 max c (all_came chunks)) (came_oversized chunk c w o e)
                ∙ happen_all-closed chunks c' refl)
              (rw e (append_assoc c.emitted m (destroyed ∷ []), refl))
        | inr e ↦
            let c' = record c { decoder = decoder; emitted = c.emitted ++ m } in
            let rest = receive max decoder chunks in
            let (same, ended) = Emitted-came chunks c' w o in
            Emitted-subst c _
              (record { frames = r.frames ++ rest.frames; too_large = rest.too_large }) _
              (happen_all utf8 max c' (all_came chunks)) (rw e refl)
              (ap (λ c. happen_all utf8 max c (all_came chunks)) (came_whole chunk c w o e))
              (same ∙ came_twice c r.frames rest.frames (end_of rest.too_large), ended)
      ]
