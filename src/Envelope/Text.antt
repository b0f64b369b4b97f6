-- ===== src/Envelope/Text.antt =====
-- The tests on texts that the envelopes need: `trim`, `includes("@")` and `assertImageDataUrl`
-- (packages/esig-core/src/envelope.ts, packages/esig-core/src/signature-block.ts).
use Prim.Native.Char.{code}
use esig_suite.Prelude.{
  ℕ, suc, zero, ◌≡◌, String, Bool, true, false, ◌&&◌, ◌||◌, Option, none, some, leb, ◌==◌, nat_eq,
  if◌then◌else◌, arith,
}

-- The characters of `\s`, which are those that `trim` removes.
is_whitespace : ℕ → Bool
is_whitespace c =
    (leb 9 c && leb c 13)
    || c == 32
    || c == 160
    || c == 5760
    || (leb 8192 c && leb c 8202)
    || c == 8232
    || c == 8233
    || c == 8239
    || c == 8287
    || c == 12288
    || c == 65279

-- `!text.trim()`
pub is_blank : String → Bool
unfolding is_whitespace
is_blank String.[] = true
is_blank (String.◌∷◌ c s) = is_whitespace (code c) && is_blank s

-- `text.includes("@")`
pub includes_at : String → Bool
includes_at String.[] = false
includes_at (String.◌∷◌ c s) = code c == b'@' || includes_at s

-- `text.replace(/\s+/g, "")`
compact : String → String
unfolding is_whitespace
compact String.[] = String.[]
compact (String.◌∷◌ c s) =
    let rest = compact s in if is_whitespace (code c) then rest else String.◌∷◌ c rest

-- The rest of a text after a prefix.
after_prefix : String → String → Option String
after_prefix String.[] s = some s
after_prefix (String.◌∷◌ c p) String.[] = none
after_prefix (String.◌∷◌ c p) (String.◌∷◌ d s) =
    let rest = after_prefix p s in if code c == code d then rest else none

is_base64_char : ℕ → Bool
is_base64_char c =
    (leb b'A' c && leb c b'Z')
    || (leb b'a' c && leb c b'z')
    || (leb b'0' c && leb c b'9')
    || c == b'+'
    || c == b'/'

-- `={0,n}$`
is_padding : ℕ → String → Bool
is_padding n String.[] = true
is_padding zero (String.◌∷◌ c s) = false
is_padding (suc n) (String.◌∷◌ c s) = code c == b'=' && is_padding n s

-- `[A-Za-z0-9+/]+={0,2}$`, where `seen` says that a first character was matched.
is_base64 : Bool → String → Bool
unfolding is_base64_char is_padding
is_base64 seen String.[] = seen
is_base64 seen (String.◌∷◌ c s) =
    let rest = is_base64 true s in
    if is_base64_char (code c) then rest else seen && is_padding 2 (String.◌∷◌ c s)

is_data_after : String → String → Bool
unfolding after_prefix is_base64
is_data_after p s = elim (after_prefix p s) [ none ↦ false | some rest ↦ is_base64 false rest ]

-- `IMAGE_DATA_URL.test`
unfoldable pub is_image_data_url : String → Bool
unfolding is_data_after
is_image_data_url s =
    is_data_after "data:image/png;base64," s
    || is_data_after "data:image/jpg;base64," s
    || is_data_after "data:image/jpeg;base64," s
    || is_data_after "data:image/webp;base64," s
    || is_data_after "data:image/gif;base64," s

-- The compact form of the URL, or nothing where the function throws.
unfoldable pub assert_image_data_url : String → Option String
unfolding compact
assert_image_data_url s = let url = compact s in if is_image_data_url url then some url else none

-- What the function returns is an image data URL.
pub assert_image_data_url_lem :
    (s url : String) → assert_image_data_url s ≡ some url → is_image_data_url url ≡ true
unfolding assert_image_data_url
assert_image_data_url_lem s url h = ground arith
