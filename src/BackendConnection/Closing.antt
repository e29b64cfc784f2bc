-- ===== src/BackendConnection/Closing.antt =====
-- When a connection tells that it is closed.
use mathlib.Core.List.{flatten}
use thread_link.Prelude.{
  ℕ, suc, ◌+◌, ◌≡◌, refl, ap, ◌∙◌, ◌<◌, true, List, [], ◌∷◌, ◌++◌, map, All, arith,
}
use thread_link.Wire.{PushResult, write_uint32_be}
use thread_link.Wire.RoundTrip.{encode_all, FitsIn, receive_oversized}
use thread_link.BackendConnection.{
  Connection, Emission, event, close, error, written, destroyed, Utf8, new_connection, dial, wired,
  event_of, close_connection, on_socket_close, write_line, Happening, close_called, line_sent,
  connected, refused, socket_closed, socket_failed, data_came, happen, happen_all,
}
use thread_link.BackendConnection.Streams.{all_came, end_of, Emitted-came}

-- How often "close" was emitted.
unfoldable pub closes : List Emission → ℕ
closes [] = 0
closes (close ∷ es) = suc (closes es)
closes (event e ∷ es) = closes es
closes (error text ∷ es) = closes es
closes (written bytes ∷ es) = closes es
closes (destroyed ∷ es) = closes es

closes-append : (xs ys : List Emission) → closes (xs ++ ys) ≡ closes xs + closes ys
unfolding closes
closes-append [] ys = omega arith
closes-append (close ∷ xs) ys = omega (arith, closes-append xs ys)
closes-append (event e ∷ xs) ys = closes-append xs ys
closes-append (error text ∷ xs) ys = closes-append xs ys
closes-append (written bytes ∷ xs) ys = closes-append xs ys
closes-append (destroyed ∷ xs) ys = closes-append xs ys

module _ (utf8 : Utf8) (max : ℕ) where
  closes-events : (frames : List (List ℕ)) → closes (map (event_of utf8) frames) ≡ 0
  unfolding closes
  closes-events [] = refl
  closes-events (f ∷ fs) = closes-events fs

  -- A closed connection stays closed and is silent about it.
  record Silent (n : ℕ) (c : Connection) : Type 0 where
    is_closed : c.closed ≡ true
    told_before : closes c.emitted ≡ n

  Silent-happen :
      (n : ℕ) (c : Connection) (h : Happening) → Silent n c → Silent n (happen utf8 max c h)
  unfolding happen write_line close_connection on_socket_close dial
  Silent-happen n c close_called s = ground arith
  Silent-happen n c (line_sent line) s = ground arith
  Silent-happen n c connected s = ground arith
  Silent-happen n c refused s = ground arith
  Silent-happen n c socket_closed s = ground arith
  Silent-happen n c (data_came chunk) s = ground arith
  Silent-happen n c (socket_failed text) s =
      unfold closes in ground (arith, closes-append c.emitted (error text ∷ []))

  Silent-happen_all :
      (n : ℕ) (hs : List Happening) (c : Connection)
      → Silent n c
      → Silent n (happen_all utf8 max c hs)
  unfolding happen_all
  Silent-happen_all n [] c s = s
  Silent-happen_all n (h ∷ hs) c s =
      Silent-happen_all n hs (happen utf8 max c h) (Silent-happen n c h s)

  happen_all-append :
      (hs ks : List Happening) (c : Connection)
      → happen_all utf8 max c (hs ++ ks) ≡ happen_all utf8 max (happen_all utf8 max c hs) ks
  unfolding happen_all
  happen_all-append [] ks c = refl
  happen_all-append (h ∷ hs) ks c = happen_all-append hs ks (happen utf8 max c h)

  -- An oversized frame ends the connection without a word: whatever comes after its header and whatever
  -- happens then, "close" is never emitted, so that no listener to it runs. The frames before it fit.
  pub happen_all_oversized :
      (n : ℕ) (payloads chunks : List (List ℕ)) (junk : List ℕ) (hs : List Happening)
      → max < n
      → n < 4294967296
      → All (FitsIn max) payloads
      → flatten chunks ≡ encode_all payloads ++ (write_uint32_be n ++ junk)
      → let c = happen_all utf8 max (dial new_connection) (connected ∷ (all_came chunks ++ hs)) in
        (c.closed ≡ true) × (closes c.emitted ≡ 0)
  unfolding happen_all happen dial new_connection
  happen_all_oversized n payloads chunks junk hs m w fits cut =
      let up = record new_connection { socket = wired } in
      let got = receive_oversized max n payloads chunks junk m w fits cut in
      let (emitted, ended) = Emitted-came utf8 max chunks up refl refl in
      let ws = map (event_of utf8) payloads in
      let silent : Silent 0 (happen_all utf8 max up (all_came chunks)) = record {
        is_closed = ended ∙ ap (λ (r : PushResult). r.too_large) got;
        told_before =
            ap closes (
              emitted
              ∙ ap (λ (r : PushResult). map (event_of utf8) r.frames ++ end_of r.too_large) got)
            ∙ closes-append ws (destroyed ∷ [])
            ∙ unfold closes in omega (arith, closes-events payloads);
      } in
      let s = Silent-happen_all 0 hs _ silent in
      let same = happen_all-append (all_came chunks) hs up in
      (
        ap (λ (c : Connection). c.closed) same ∙ s.is_closed,
        ap (λ (c : Connection). closes c.emitted) same ∙ s.told_before,
      )
