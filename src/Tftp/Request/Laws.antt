-- ===== src/Tftp/Request/Laws.antt =====
-- What a request must look like to be served (go-susi/tftp/server.go).
use limux_gosa.Base.{
  ℕ, ◌<◌, ◌≤◌, false, some, eq_of_some, List, [], ◌∷◌, ◌==◌, drop, ◌≡◌, ◌≢◌, refl, ap, sym, ◌∙◌,
  inl, inr, arith, Bool-cases,
}
use limux_gosa.Base.Text.{Text, codes, text_eq, text_eq_iff, to_lower}
use limux_gosa.Xml.Hash.{join}
use limux_gosa.Tftp.Ack.{byte_at}
use limux_gosa.Tftp.Request.{
  split_zero, onto_first, last_byte, bad_file_name, Request, accept_parts, parse_request, Settings,
  block_size_of, set_block_size, read_option, read_options, settings,
}

join_onto :
    (c : ℕ) (ps : List Text) → ps ≢ [] → join (0 ∷ []) (onto_first c ps) ≡ c ∷ join (0 ∷ []) ps
unfolding join
join_onto c [] h = absurd (h refl)
join_onto c (p ∷ []) h = refl
join_onto c (p ∷ q ∷ ps) h = refl

onto_first-ne-nil : (c : ℕ) (ps : List Text) → onto_first c ps ≢ []
onto_first-ne-nil c [] e = cc e
onto_first-ne-nil c (p ∷ ps) e = cc e

split_zero-ne-nil : (s : Text) → split_zero s ≢ []
unfolding split_zero
split_zero-ne-nil [] = λ e. cc e
split_zero-ne-nil (c ∷ s) = elim (Bool-cases (c == 0)) [
  | inl e ↦ rw e (λ q. cc q)
  | inr e ↦ rw e (onto_first-ne-nil c (split_zero s))
]

join_zero : (ps : List Text) → ps ≢ [] → join (0 ∷ []) ([] ∷ ps) ≡ 0 ∷ join (0 ∷ []) ps
unfolding join
join_zero [] h = absurd (h refl)
join_zero (p ∷ ps) h = refl

join-split_zero : (s : Text) → join (0 ∷ []) (split_zero s) ≡ s
unfolding split_zero
join-split_zero [] = (unfold join in refl)
join-split_zero (c ∷ s) = elim (Bool-cases (c == 0)) [
  | inl e ↦
      let z : c ≡ 0 = ground arith in
      rw (e, z, join_zero (split_zero s) (split_zero-ne-nil s), join-split_zero s)
  | inr e ↦ rw (e, join_onto c (split_zero s) (split_zero-ne-nil s), join-split_zero s)
]

file_name_lem :
    (s : Text) → bad_file_name s ≡ false → (s ≢ []) × (byte_at s 0 ≢ b'.') × (last_byte s ≢ b'/')
unfolding bad_file_name
file_name_lem s e = (λ q. grind (arith, (text_eq_iff s []).1 q), ground arith, ground arith)

accept_parts_lem :
    (ps : List Text) (r : Request)
    → accept_parts ps ≡ some r
    → (mode : Text) × (ps ≡ r.file ∷ mode ∷ r.options)
      × (to_lower mode ≡ codes "octet")
      × (bad_file_name r.file ≡ false)
unfolding accept_parts
accept_parts_lem [] r e = cc
accept_parts_lem (f ∷ []) r e = cc
accept_parts_lem (f ∷ mode ∷ options) r e =
    elim (Bool-cases (text_eq (to_lower mode) (codes "octet"))) [
      | inl o ↦ elim (Bool-cases (bad_file_name f)) [
        | inl b ↦ cc (rw (o, b) at e)
        | inr b ↦
            let q = eq_of_some (rw (o, b) at e) in
            (
              mode,
              ap (λ x. x.file ∷ mode ∷ x.options) q,
              (text_eq_iff (to_lower mode) (codes "octet")).0 o,
              ap (λ x. bad_file_name x.file) (sym q) ∙ b,
            )
      ]
      | inr o ↦ cc (rw o at e)
    ]

-- A payload is served only if it is the opcode 1 followed by the file name, a mode that is "octet" in any
-- case, and the options, separated by zero bytes; and then the file name is not empty, does not begin with
-- a dot and does not end with a slash.
pub parse_request_lem :
    (payload : Text) (r : Request)
    → parse_request payload ≡ some r
    → (mode : Text) × (drop 2 payload ≡ join (0 ∷ []) (r.file ∷ mode ∷ r.options))
      × (to_lower mode ≡ codes "octet")
      × (byte_at payload 0 ≡ 0)
      × (byte_at payload 1 ≡ 1)
      × (r.file ≢ [])
      × (byte_at r.file 0 ≢ b'.')
      × (last_byte r.file ≢ b'/')
unfolding parse_request
parse_request_lem payload r e =
    let served : (accept_parts (split_zero (drop 2 payload)) ≡ some r)
        × (byte_at payload 0 ≡ 0)
        × (byte_at payload 1 ≡ 1) =
      (ground arith, ground arith, ground arith) in
    let (mode, q, m, b) = accept_parts_lem (split_zero (drop 2 payload)) r served.0 in
    let (f0, f1, f2) = file_name_lem r.file b in
    (
      mode,
      sym (join-split_zero (drop 2 payload)) ∙ ap (join (0 ∷ [])) q,
      m,
      served.1,
      served.2,
      f0,
      f1,
      f2,
    )

set_block_size-bounds :
    (value option : Text) (s : Settings)
    → (0 < s.block_size) × (s.block_size ≤ 65536)
    → (0 < (set_block_size (block_size_of value) option value s).block_size)
      × ((set_block_size (block_size_of value) option value s).block_size ≤ 65536)
unfolding set_block_size block_size_of
set_block_size-bounds value option s h = ground arith

read_option-bounds :
    (size : ℕ) (name value : Text) (s : Settings)
    → (0 < s.block_size) × (s.block_size ≤ 65536)
    → (0 < (read_option size name value s).block_size)
      × ((read_option size name value s).block_size ≤ 65536)
unfolding read_option
read_option-bounds size name value s h =
    ground (arith, set_block_size-bounds value (to_lower name) s h)

read_options-bounds :
    (size : ℕ) (options : List Text) (s : Settings)
    → (0 < s.block_size) × (s.block_size ≤ 65536)
    → (0 < (read_options size options s).block_size)
      × ((read_options size options s).block_size ≤ 65536)
unfolding read_options
read_options-bounds size [] s h = h
read_options-bounds size (name ∷ []) s h = h
read_options-bounds size (name ∷ value ∷ rest) s h =
    read_options-bounds size rest (read_option size name value s)
      (read_option-bounds size name value s h)

-- The block size used for a transfer lies between 1 and 65536, whatever the options say, and it is 512 if
-- there is no option.
settings-bounds :
    (size : ℕ) (options : List Text)
    → (0 < (settings size options).block_size) × ((settings size options).block_size ≤ 65536)
unfolding settings
settings-bounds size options = read_options-bounds size options _ (omega arith)
