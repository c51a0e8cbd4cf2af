-- ===== src/Smp/Upload.antt =====
-- tools/ble-client/smp.go, `imageUpload`: the loop ends, and what a device that keeps the chunks at
-- their offsets has at the end.
use flexit_cs60_control.Shared.{
  ℕ, zero, suc, ◌+◌, ◌-◌, ◌^◌, ◌≤◌, ◌<◌, ◌≡◌, ◌≢◌, refl, ap, sym, ◌∙◌, false, inl, inr, Bool-cases,
  none, some, List, [], ◌∷◌, ◌++◌, arith, length, take, drop, ltb, length-take, length-drop,
  take_all, take-take,
}
use flexit_cs60_control.Smp.{
  Reply, no_reply, answer, Outcome, uploaded, running, stalls, resume, chunk_end, upload,
  chunk_size, image_upload,
}

take-add : (m n : ℕ) (xs : List ℕ) → take m xs ++ take n (drop m xs) ≡ take (m + n) xs
take-add zero n xs = ap (λ k. take k xs) (omega arith)
take-add (suc m) n [] = take_all n [] (omega arith) ∙ sym (take_all (suc m + n) [] (omega arith))
take-add (suc m) n (x ∷ xs) =
    let more : suc m + n ≡ suc (m + n) = omega arith in
    ap (λ t. x ∷ t) (take-add m n xs) ∙ ap (λ k. take k (x ∷ xs)) (sym more)

resume-ne-running :
    {S : Type 0}
    → (go_on : ℕ → Outcome × S) (off end : ℕ) (s : S) (reply : Reply)
    → ((n : ℕ) → off < n → (go_on n).0 ≢ running)
    → off < end
    → (resume go_on off end s reply).0 ≢ running
unfolding resume
resume-ne-running go_on off end s no_reply goes h = λ e. cc
resume-ne-running go_on off end s (answer zero none) goes h = goes end h
resume-ne-running go_on off end s (answer zero (some n)) goes h = elim (Bool-cases (stalls n off)) [
  | inl e ↦ rw e (λ e'. cc)
  | inr e ↦ rw e (goes n (ground (arith, e)))
]
resume-ne-running go_on off end s (answer (suc code) off') goes h = λ e. cc

module _ {S : Type 0} (serve : ℕ → List ℕ → S → Reply × S) where
  -- A device that takes a chunk at its offset, or a part of it that is not empty, behind what it
  -- has, and answers with the offset that it then expects.
  pub record Appends (image : S → List ℕ) : Type 0 where
    pub taken : ℕ → List ℕ → S → ℕ
    pub some_taken :
        (off : ℕ) (c : List ℕ) (s : S)
        → length (image s) ≡ off
        → 0 < length c
        → (0 < taken off c s) × (taken off c s ≤ length c)
    pub answers :
        (off : ℕ) (c : List ℕ) (s : S)
        → length (image s) ≡ off
        → 0 < length c
        → (serve off c s).0 ≡ answer 0 (some (off + taken off c s))
    pub grows :
        (off : ℕ) (c : List ℕ) (s : S)
        → length (image s) ≡ off
        → 0 < length c
        → image (serve off c s).1 ≡ image s ++ take (taken off c s) c

module _ {S : Type 0} (serve : ℕ → List ℕ → S → Reply × S) (size : ℕ) (file : List ℕ)
    (some_size : 0 < size) where
  -- The loop ends by itself.
  upload-ne-running :
      (fuel off : ℕ) (s : S)
      → length file - off < fuel
      → (upload serve size file fuel off s).0 ≢ running
  unfolding upload
  upload-ne-running zero off s h = absurd (omega (arith, h))
  upload-ne-running (suc fuel) off s h = elim (Bool-cases (ltb off (length file))) [
    | inl e ↦
        let end = chunk_end size (length file) off in
        let served = serve off (take (end - off) (drop off file)) s in
        rw e (
          resume-ne-running (λ n. upload serve size file fuel n served.1) off end served.1 served.0
            (λ n more. upload-ne-running fuel n served.1 (ground (arith, h, e, more)))
            (ground (arith, e, some_size)))
    | inr e ↦ rw e (λ e'. cc)
  ]

  module _ (image : S → List ℕ) (dev : Appends serve image) (short : length file < 2 ^ 63) where
    upload_from :
        (fuel off : ℕ) (s : S)
        → length file - off < fuel
        → off ≤ length file
        → image s ≡ take off file
        → let r = upload serve size file fuel off s in (r.0 ≡ uploaded) × (image r.1 ≡ file)
    unfolding upload resume
    upload_from zero off s h k e = absurd (omega (arith, h))
    upload_from (suc fuel) off s h k e = elim (Bool-cases (ltb off (length file))) [
      | inl more ↦
          let end = chunk_end size (length file) off in
          let c = take (end - off) (drop off file) in
          let long : off < length file = ground (arith, more) in
          let chunk : (off < end) × (end ≤ length file) = ground (arith, long, some_size) in
          let here : length (image s) ≡ off =
            ap length e ∙ length-take off file ∙ omega (arith, k) in
          let size_c : length c ≡ end - off =
            omega (
              arith,
              length-take (end - off) (drop off file),
              length-drop off file,
              chunk.1,
              long,
            ) in
          let not_empty : 0 < length c = omega (arith, size_c, chunk.0) in
          let n = dev.taken off c s in
          let (some_bytes, no_more) = dev.some_taken off c s here not_empty in
          let told : stalls (off + n) off ≡ false =
            ground (arith, some_bytes, no_more, size_c, chunk.1, short) in
          let has : image (serve off c s).1 ≡ take (off + n) file =
            dev.grows off c s here not_empty
            ∙ ap (λ t. t ++ take n c) e
            ∙ ap (λ t. take off file ++ t)
                (take-take n (end - off) (drop off file) (omega (arith, no_more, size_c)))
            ∙ take-add off n file in
          rw (more, dev.answers off c s here not_empty, told)
            (upload_from fuel (off + n) (serve off c s).1 (omega (arith, h, long, some_bytes))
              (omega (arith, no_more, size_c, chunk.1)) has)
      | inr done ↦ rw done (refl, e ∙ take_all off file (ground (arith, done)))
    ]

chunk_size_pos : (mtu : ℕ) → 0 < chunk_size mtu
unfolding chunk_size
chunk_size_pos mtu = ground arith

module _ {S : Type 0} (serve : ℕ → List ℕ → S → Reply × S) (mtu : ℕ) (file : List ℕ) (s : S) where
  -- Whatever the device answers, and whatever the MTU, the upload ends, since every round moves the
  -- offset on.
  pub image_upload_ends : (image_upload serve mtu file s).0 ≢ running
  unfolding image_upload
  image_upload_ends =
      upload-ne-running serve (chunk_size mtu) file (chunk_size_pos mtu) (length file + 1) 0 s
        (omega arith)

  -- With a device that starts empty, takes each chunk or a part of it that is not empty, and
  -- answers with the offset that it expects next, the upload of a file of fewer than 2 ^ 63 bytes
  -- succeeds, and the device then has the whole file.
  pub image_upload_lem :
      (image : S → List ℕ)
      → Appends serve image
      → length file < 2 ^ 63
      → image s ≡ []
      → let r = image_upload serve mtu file s in (r.0 ≡ uploaded) × (image r.1 ≡ file)
  unfolding image_upload
  image_upload_lem image dev short e =
      upload_from serve (chunk_size mtu) file (chunk_size_pos mtu) image dev short (length file + 1)
        0 s (omega arith) (omega arith) e
