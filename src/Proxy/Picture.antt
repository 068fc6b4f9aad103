-- ===== src/Proxy/Picture.antt =====
-- The content phase of `extract_data` of plugins/input_http/mjpg-proxy.c: the picture is what stands
-- before the boundary.
use robotica_movel.Prelude.{
  ℕ, ◌+◌, ◌-◌, ◌≤◌, Bool, true, false, List, [], ◌∷◌, ◌++◌, map, some, ◌≡◌, refl, sym, ap, ◌∙◌,
  arith, leb, ◌==◌, ==_iff, Bool-cases, inl, inr, Bytes, length, take, append-nil, append_assoc,
  length-append, take-append,
}
use robotica_movel.Prelude.Int.{ℤ, pos, ◌-ℤ◌}
use robotica_movel.CString.{contains}
use robotica_movel.Proxy.{
  SearchPattern, char_at, pattern_compare, pattern_matches, content, Extractor, buffer_size,
  boundary_text, init_extractor, Image, content_byte, extract_data, received,
}
use robotica_movel.Proxy.Matcher.{
  completes, char_at_other, char_here, char_next, completes-contains, completes_now,
  completes_onward, completes_again, char_end,
}

-- The content phase with `b` in the buffer and the matcher at place `k`.
abbrev pub reading : ℕ → SearchPattern → Bytes → ℕ → Extractor
reading w q b k = record {
  part = content;
  buffer = b;
  last_four_bytes = w;
  contentlength = q;
  boundary = record { string = boundary_text; current = k };
}

abbrev place : ℕ → SearchPattern
place k = record { string = boundary_text; current = k }

-- What is handed out for the buffer `b`.
abbrev image : Bytes → Image
image b = record { data' = b; length' = pos (length b) -ℤ pos (length boundary_text + 2) }

compare_hit :
    (k c : ℕ) → (char_at boundary_text k == c) ≡ true → pattern_compare (place k) c ≡ place (k + 1)
unfolding pattern_compare
compare_hit k c e = rw e refl

compare_miss :
    (k c : ℕ) → (char_at boundary_text k == c) ≡ false → pattern_compare (place k) c ≡ place 0
unfolding pattern_compare
compare_miss k c e = rw e refl

clash : true ≡ false → ⊥
clash e = cc

not_full : (b : Bytes) → length b + 1 ≤ buffer_size - 1 → leb (buffer_size - 1) (length b) ≡ false
not_full b h = ground arith

content_stored :
    (w : ℕ) (q : SearchPattern) (b : Bytes) (k k' c : ℕ)
    → length b + 1 ≤ buffer_size - 1
    → pattern_compare (place k) c ≡ place k'
    → (char_at boundary_text k' == 0) ≡ false
    → content_byte (reading w q b k) c ≡ (reading w q (b ++ c ∷ []) k', [])
unfolding content_byte pattern_matches
content_stored w q b k k' c room e f = rw (not_full b room, e, f) refl

content_last :
    (w : ℕ) (q : SearchPattern) (b : Bytes) (k k' c : ℕ)
    → length b + 1 ≤ buffer_size - 1
    → pattern_compare (place k) c ≡ place k'
    → (char_at boundary_text k' == 0) ≡ true
    → content_byte (reading w q b k) c ≡ (init_extractor, image (b ++ c ∷ []) ∷ [])
unfolding content_byte pattern_matches
content_last w q b k k' c room e f = rw (not_full b room, e, f) refl

module _ (char_signed : Bool) (w : ℕ) (q : SearchPattern) where
  abbrev run : Extractor → Bytes → Extractor × List Image
  run st s = extract_data char_signed st s

  -- A byte that completes nothing is stored.
  byte_stored :
      (b : Bytes) (k k' c : ℕ) (s : Bytes)
      → length b + 1 ≤ buffer_size - 1
      → pattern_compare (place k) c ≡ place k'
      → (char_at boundary_text k' == 0) ≡ false
      → run (reading w q b k) (c ∷ s) ≡ run (reading w q (b ++ c ∷ []) k') s
  unfolding extract_data
  byte_stored b k k' c s room e f = rw (content_stored w q b k k' c room e f) refl

  -- The last byte of the boundary hands the picture out.
  byte_last :
      (b : Bytes) (k k' c : ℕ) (s : Bytes)
      → length b + 1 ≤ buffer_size - 1
      → pattern_compare (place k) c ≡ place k'
      → (char_at boundary_text k' == 0) ≡ true
      → run (reading w q b k) (c ∷ s)
        ≡ ((run init_extractor s).0, image (b ++ c ∷ []) ∷ (run init_extractor s).1)
  unfolding extract_data
  byte_last b k k' c s room e f = rw (content_last w q b k k' c room e f) refl

  -- Bytes in which the boundary does not occur are all stored.
  abbrev IsKept : (frame b : Bytes) (k : ℕ) (s : Bytes) → Type 0
  IsKept frame b k s =
      (k' : ℕ) × (run (reading w q b k) (frame ++ s) ≡ run (reading w q (b ++ frame) k') s)

  stored_next :
      (frame b : Bytes) (k k' c : ℕ) (s : Bytes)
      → length b + 1 ≤ buffer_size - 1
      → pattern_compare (place k) c ≡ place k'
      → (char_at boundary_text k' == 0) ≡ false
      → IsKept frame (b ++ c ∷ []) k' s
      → IsKept (c ∷ frame) b k s
  stored_next frame b k k' c s room e f (k'', h) = (
    k'',
    byte_stored b k k' c (frame ++ s) room e f
        ∙ (h ∙ ap (λ t. run (reading w q t k'') s) (append_assoc b (c ∷ []) frame)),
  )

  frame_stored :
      (frame b : Bytes) (k : ℕ) (s : Bytes)
      → completes boundary_text k frame ≡ false
      → length b + length frame ≤ buffer_size - 1
      → IsKept frame b k s
  frame_stored [] b k s h room = (k, ap (λ t. run (reading w q t k) s) (sym (append-nil b)))
  frame_stored (c ∷ frame) b k s h room = elim (Bool-cases (char_at boundary_text k == c)) [
    | inr miss ↦
        stored_next frame b k 0 c s (omega arith) (compare_miss k c miss) (unfold char_at in refl) (
          frame_stored frame (b ++ c ∷ []) 0 s (sym (completes_again _ _ refl k c frame miss) ∙ h)
            (omega (arith, length-append b (c ∷ []))))
    | inl hit ↦ elim (Bool-cases (char_at boundary_text (k + 1) == 0)) [
      | inl end ↦ absurd (clash (sym (completes_now _ _ refl k c frame hit end) ∙ h))
      | inr go ↦ stored_next frame b k (k + 1) c s (omega arith) (compare_hit k c hit) go (
          frame_stored frame (b ++ c ∷ []) (k + 1) s
            (sym (completes_onward _ _ refl k c frame hit go) ∙ h)
            (omega (arith, length-append b (c ∷ []))))
    ]
  ]

  -- The boundary, of which `pre` is matched.
  boundary_run :
      (suf pre b : Bytes) (x k : ℕ) (s : Bytes)
      → boundary_text ≡ pre ++ x ∷ suf
      → k ≡ length pre
      → length b + length (x ∷ suf) ≤ buffer_size - 1
      → run (reading w q b k) ((x ∷ suf) ++ s)
        ≡ ((run init_extractor s).0, image (b ++ x ∷ suf) ∷ (run init_extractor s).1)
  boundary_run [] pre b x k s e len room =
      byte_last b k (k + 1) x s (omega arith)
        (compare_hit k x ((==_iff _ _).1 (char_here _ _ refl pre x [] k e len)))
        (char_end _ _ refl pre x k e len)
  boundary_run (y ∷ ys) pre b x k s e len room =
      byte_stored b k (k + 1) x ((y ∷ ys) ++ s) (omega arith)
        (compare_hit k x ((==_iff _ _).1 (char_here _ _ refl pre x (y ∷ ys) k e len)))
        (char_next _ _ refl pre x y ys k e len)
      ∙ (boundary_run ys (pre ++ x ∷ []) (b ++ x ∷ []) y (k + 1) s
            (e ∙ sym (append_assoc pre (x ∷ []) (y ∷ ys)))
            (omega (arith, length-append pre (x ∷ []))) (omega (arith, length-append b (x ∷ [])))
          ∙ ap (λ t. ((run init_extractor s).0, image t ∷ (run init_extractor s).1))
              (append_assoc b (x ∷ []) (y ∷ ys)))

received_taken :
    (b : Bytes) (z : ℤ) (n : ℕ)
    → z ≡ pos n
    → received (record { data' = b; length' = z }) ≡ some (take n b)
unfolding received
received_taken b z n e = rw e refl

less_the_tail : (n m : ℕ) → pos (n + m) -ℤ pos m ≡ pos n
unfolding ◌-ℤ◌
less_the_tail n m = ground arith

-- The length that is handed out leaves the boundary and the line end before it away.
received-image :
    (frame : Bytes)
    → received (image (((frame ++ b'\r' ∷ []) ++ b'\n' ∷ []) ++ boundary_text)) ≡ some frame
received-image frame =
    ap (λ t. received (image t))
      (append_assoc (frame ++ b'\r' ∷ []) (b'\n' ∷ []) boundary_text
        ∙ append_assoc frame (b'\r' ∷ []) (b'\n' ∷ boundary_text))
    ∙ (received_taken (frame ++ (b'\r' ∷ b'\n' ∷ boundary_text)) _ (length frame) (
          ap (λ n. pos n -ℤ pos (length boundary_text + 2))
            (length-append frame (b'\r' ∷ b'\n' ∷ boundary_text))
          ∙ less_the_tail (length frame) (length boundary_text + 2))
        ∙ ap some (take-append frame (b'\r' ∷ b'\n' ∷ boundary_text)))

no_match :
    (frame : Bytes) → contains frame boundary_text ≡ false → completes boundary_text 0 frame ≡ false
no_match frame h = elim (Bool-cases (completes boundary_text 0 frame)) [
  | inr e ↦ e
  | inl e ↦ absurd (clash (sym (completes-contains _ _ refl frame [] _ _ 0 refl refl e) ∙ h))
]

line_end_stored :
    (char_signed : Bool) (w : ℕ) (q : SearchPattern) (b : Bytes) (k c : ℕ) (s : Bytes)
    → length b + 1 ≤ buffer_size - 1
    → (char_at boundary_text k == c) ≡ false
    → extract_data char_signed (reading w q b k) (c ∷ s)
      ≡ extract_data char_signed (reading w q (b ++ c ∷ []) 0) s
line_end_stored char_signed w q b k c s room e =
    byte_stored char_signed w q b k 0 c s room (compare_miss k c e) (unfold char_at in refl)

-- In the content phase, with an empty buffer: when a picture in which the boundary does not occur is
-- followed by a line end and the boundary, and both fit into the buffer, `on_image_received` gets
-- exactly the picture, and the parser goes on with the bytes behind as from its initial state.
pub picture_before_boundary :
    (char_signed : Bool) (w : ℕ) (q : SearchPattern) (frame rest : Bytes)
    → contains frame boundary_text ≡ false
    → length frame + (2 + length boundary_text) ≤ buffer_size - 1
    → ((extract_data char_signed
          (reading w q [] 0)
          (frame ++ (b'\r' ∷ b'\n' ∷ (boundary_text ++ rest)))).0
        ≡ (extract_data char_signed init_extractor rest).0)
      × (map received
            (extract_data char_signed
              (reading w q [] 0)
              (frame ++ (b'\r' ∷ b'\n' ∷ (boundary_text ++ rest)))).1
          ≡ some frame ∷ map received (extract_data char_signed init_extractor rest).1)
picture_before_boundary char_signed w q frame rest h room = (
  ap (λ r. r.0) whole,
  ap (λ r. map received r.1) whole
      ∙ ap (λ o. o ∷ map received (extract_data char_signed init_extractor rest).1)
          (received-image frame),
)
  where
    behind : Bytes
    behind = b'\n' ∷ (boundary_text ++ rest)

    stored : IsKept char_signed w q frame [] 0 (b'\r' ∷ behind)
    stored =
        frame_stored char_signed w q frame [] 0 (b'\r' ∷ behind) (no_match frame h) (omega arith)

    whole : extract_data char_signed (reading w q [] 0) (frame ++ b'\r' ∷ behind) ≡ (
      (extract_data char_signed init_extractor rest).0,
      image (((frame ++ b'\r' ∷ []) ++ b'\n' ∷ []) ++ boundary_text)
          ∷ (extract_data char_signed init_extractor rest).1,
    )
    whole =
        stored.1
        ∙ (line_end_stored char_signed w q frame stored.0 b'\r' behind (omega arith)
              (char_at_other boundary_text b'\r' _ (omega arith) refl)
            ∙ (line_end_stored char_signed w q (frame ++ b'\r' ∷ []) 0 b'\n' (boundary_text ++ rest)
                  (omega (arith, length-append frame (b'\r' ∷ [])))
                  (char_at_other boundary_text b'\n' 0 (omega arith) refl)
                ∙ boundary_run char_signed w q _ [] ((frame ++ b'\r' ∷ []) ++ b'\n' ∷ []) _ 0 rest
                    refl refl
                    (omega (
                      arith,
                      length-append frame (b'\r' ∷ []),
                      length-append (frame ++ b'\r' ∷ []) (b'\n' ∷ []),
                    ))))
