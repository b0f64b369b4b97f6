-- ===== src/Envelope/Html.antt =====
-- The HTML of the signature blocks and of a completed envelope
-- (packages/esig-core/src/signature-block.ts, `composeEnvelopeHtml` of
-- packages/esig-core/src/envelope.ts). `toISOString` is a parameter.
use Prim.Native.Char.{code}
use esig_suite.Prelude.{
  ℕ, ◌≡◌, refl, String, Bool, false, not, ◌&&◌, ◌||◌, Option, none, some, List, [], ◌∷◌, ◌==◌,
  nat_eq, string_eq, if◌then◌else◌, get_or, Result, ok, err, arith,
}
use esig_suite.Envelope.Text.{assert_image_data_url}
use esig_suite.Envelope.{
  Envelope, EnvelopeSigner, EnvelopeFailure, is_completed, not_complete, invalid_input,
}

abbrev pub append : String → String → String
append String.[] t = t
append (String.◌∷◌ c s) t = String.◌∷◌ c (append s t)

abbrev pub has_char : ℕ → String → Bool
has_char d String.[] = false
has_char d (String.◌∷◌ c s) = code c == d || has_char d s

-- `s.replace(/c/g, text)` for one character.
abbrev pub replace_char : ℕ → String → String → String
replace_char d text String.[] = String.[]
replace_char d text (String.◌∷◌ c s) =
    let rest = replace_char d text s in if code c == d then append text rest else String.◌∷◌ c rest

unfoldable pub escape_html : String → String
escape_html s = replace_char b'\'' "&#39;" (
    replace_char b'"' "&quot;"
      (replace_char b'>' "&gt;" (replace_char b'<' "&lt;" (replace_char b'&' "&amp;" s))))

has_char-append : (d : ℕ) (s t : String) → has_char d (append s t) ≡ (has_char d s || has_char d t)
has_char-append d String.[] t = refl
has_char-append d (String.◌∷◌ c s) t = ground (arith, has_char-append d s t)

-- Replacing a character by a text without `d` brings in no `d`.
has_char-replace_char :
    (d c : ℕ) (text s : String)
    → has_char d text ≡ false
    → has_char d (replace_char c text s) ≡ (has_char d s && not (c == d))
has_char-replace_char d c text String.[] h = refl
has_char-replace_char d c text (String.◌∷◌ x s) h =
    ground
      (arith, h, has_char-replace_char d c text s h, has_char-append d text (replace_char c text s))

-- A text that cannot leave an element's content or a quoted attribute.
pub record IsInert (s : String) : Type 0 where
  pub no_lt : has_char b'<' s ≡ false
  pub no_gt : has_char b'>' s ≡ false
  pub no_quote : has_char b'"' s ≡ false
  pub no_apostrophe : has_char b'\'' s ≡ false

-- No escaped text has an angle bracket, a quotation mark or an apostrophe.
pub escape_html-IsInert : (s : String) → IsInert (escape_html s)
unfolding escape_html
escape_html-IsInert s =
    let amp = replace_char b'&' "&amp;" s in
    let lt = replace_char b'<' "&lt;" amp in
    let gt = replace_char b'>' "&gt;" lt in
    let quote = replace_char b'"' "&quot;" gt in
    record {
      no_lt = ground (
        arith,
        has_char-replace_char b'<' b'\'' "&#39;" quote refl,
        has_char-replace_char b'<' b'"' "&quot;" gt refl,
        has_char-replace_char b'<' b'>' "&gt;" lt refl,
        has_char-replace_char b'<' b'<' "&lt;" amp refl,
      );
      no_gt = ground (
        arith,
        has_char-replace_char b'>' b'\'' "&#39;" quote refl,
        has_char-replace_char b'>' b'"' "&quot;" gt refl,
        has_char-replace_char b'>' b'>' "&gt;" lt refl,
      );
      no_quote = ground (
        arith,
        has_char-replace_char b'"' b'\'' "&#39;" quote refl,
        has_char-replace_char b'"' b'"' "&quot;" gt refl,
      );
      no_apostrophe = ground (arith, has_char-replace_char b'\'' b'\'' "&#39;" quote refl);
    }

pub record SignatureBlockEntry : Type 0 where
  pub name : String
  pub email : String
  pub signature_image_data_url : String
  pub signed_at : ℕ
  pub role_label : Option String

abbrev pub concat : List String → String
concat [] = ""
concat (s ∷ ss) = append s (concat ss)

-- `rows.join("\n")`
abbrev pub join_lines : List String → String
join_lines [] = ""
join_lines (s ∷ []) = s
join_lines (s ∷ t ∷ ss) = append s (append "\n" (join_lines (t ∷ ss)))

-- `${text ? before + escapeHtml(text) + after : ""}`
abbrev pub unless_empty : String → String → String → String
unfolding escape_html
unless_empty before text after =
    if text == "" then "" else concat (before ∷ escape_html text ∷ after ∷ [])

module _ (to_iso : ℕ → String) where
  unfoldable pub render_row : SignatureBlockEntry → String → String
  render_row s url = concat (
      "\n  <div class=\"signature-row\">\n    "
      ∷ unless_empty "<p class=\"role-label\">" (get_or s.role_label "") "</p>"
      ∷ "\n    <p><strong>Signed electronically by:</strong> "
      ∷ escape_html s.name
      ∷ unless_empty " &lt;" s.email "&gt;"
      ∷ "</p>\n    <img src=\""
      ∷ url
      ∷ "\" alt=\"Signature of "
      ∷ escape_html s.name
      ∷ "\">\n    <p class=\"signature-meta\">Signed at "
      ∷ to_iso s.signed_at
      ∷ "</p>\n  </div>"
      ∷ [])

  -- The rows, unless a URL is refused.
  unfoldable pub render_rows : List SignatureBlockEntry → Option (List String)
  render_rows [] = some []
  render_rows (s ∷ ss) =
      let rest = render_rows ss in
      elim (assert_image_data_url s.signature_image_data_url) [
        | none ↦ none
        | some url ↦ elim rest [ none ↦ none | some rows ↦ some (render_row s url ∷ rows) ]
      ]

  unfoldable pub render_signature_blocks_html :
      List SignatureBlockEntry → Option String → Option String → Option String
  unfolding escape_html
  render_signature_blocks_html signers platform_label platform_url = elim (render_rows signers) [
    | none ↦ none
    | some rows ↦ some (
        concat (
          "<div class=\"signature-block\">\n"
          ∷ "  <style>\n"
          ∷ "    .signature-block { margin-top: 64px; border-top: 1px solid #999; padding-top: 16px; }\n"
          ∷ "    .signature-row { margin: 16px 0; padding: 12px 0; border-bottom: 1px dashed #ddd; }\n"
          ∷ "    .signature-row:last-child { border-bottom: none; }\n"
          ∷ "    .signature-row img { display: block; max-height: 96px; margin: 8px 0; }\n"
          ∷ "    .signature-meta { color: #555; font-size: 11px; margin-top: 4px; }\n"
          ∷ "    .role-label { font-style: italic; color: #444; margin: 0 0 4px; }\n"
          ∷ "    .audit-footer { color: #555; font-size: 11px; margin-top: 12px; }\n"
          ∷ "  </style>\n"
          ∷ "  "
          ∷ join_lines rows
          ∷ "\n"
          ∷ "  <p class=\"audit-footer\">\n"
          ∷ "    Cryptographically sealed via the "
          ∷ escape_html (get_or platform_label "self-contained e-signature pipeline")
          ∷ unless_empty " (" (get_or platform_url "") ")"
          ∷ ".\n"
          ∷ "    Any post-signing modification invalidates the signature panel in Adobe Reader / Preview.\n"
          ∷ "  </p>\n"
          ∷ "</div>"
          ∷ []))
  ]

  -- The entries of an envelope; a missing date makes `toISOString` throw, a missing image is refused.
  unfoldable pub entries : List EnvelopeSigner → Option (List SignatureBlockEntry)
  entries [] = some []
  entries (s ∷ ss) =
      let rest = entries ss in
      elim s.signed_at [
        | none ↦ none
        | some at ↦ elim rest [
          | none ↦ none
          | some es ↦ some (
              record {
                name = s.name;
                email = s.email;
                signature_image_data_url = get_or s.signature_image_data_url "";
                signed_at = at;
                role_label = s.role_label;
              }
              ∷ es)
        ]
      ]

  abbrev composed : Envelope → Option String → Result EnvelopeFailure String
  composed e none = err invalid_input
  composed e (some blocks) = ok (append e.html (append "\n" blocks))

  -- `invalid_input` stands for the errors of the renderer, which have no code.
  unfoldable pub compose_envelope_html :
      Envelope → Option String → Option String → Result EnvelopeFailure String
  compose_envelope_html e platform_label platform_url =
      if not (is_completed e.status) then err not_complete else elim (entries e.signers) [
        | none ↦ err invalid_input
        | some es ↦ composed e (render_signature_blocks_html es platform_label platform_url)
      ]
