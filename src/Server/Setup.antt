-- ===== src/Server/Setup.antt =====
-- Theorems on the OPAQUE secret: what `generate-setup` of src/main.rs prints is what src/config.rs loads.
use Prim.Native.String
use Prim.Native.Char.{Char}
use text.Mathlib.TextLemmas.{append-nil, nil-append, cons-append}
use realm_guard_server.Prelude.{
  ℕ, ◌<◌, ◌≡◌, refl, sym, ap, ◌∙◌, String, Bool, true, false, not, some, List, [], ◌∷◌, arith,
  length,
}
use realm_guard_server.Prelude.Text.{is_whitespace, trim_start, trim_end, trim, all_chars}
use realm_guard_server.Platform.{Bytes}
use realm_guard_server.Result.{ok}
use realm_guard_server.Server.Config.{Host, Config, decode_setup, load_opaque_setup, debug_fields}
use realm_guard_server.Server.Process.{Machine, Act, printed, main}

-- No character is white space.
abbrev pub is_solid : String → Bool
is_solid s = all_chars (λ c. not (is_whitespace c)) s

trim_end_line : trim_end "\n" ≡ ""
unfolding trim_end is_whitespace
trim_end_line = refl

trim_line : trim "\n" ≡ ""
unfolding trim trim_start trim_end is_whitespace
trim_line = refl

trim_end-cons :
    (c : Char) (s : String)
    → is_whitespace c ≡ false
    → trim_end (String.◌∷◌ c s) ≡ String.◌∷◌ c (trim_end s)
unfolding trim_end
trim_end-cons c s h = rw h refl

-- What `trim_end` drops is dropped behind a text with no white space.
trim_end-append :
    (s rest : String) → trim_end rest ≡ "" → is_solid s ≡ true → trim_end (String.◌++◌ s rest) ≡ s
trim_end-append String.[] rest dropped h = ap trim_end (nil-append rest) ∙ dropped
trim_end-append (String.◌∷◌ c s) rest dropped h =
    let solid : is_whitespace c ≡ false = ground arith in
    let ih = trim_end-append s rest dropped (ground arith) in
    ap trim_end (cons-append c s rest)
    ∙ trim_end-cons c (String.◌++◌ s rest) solid
    ∙ ap (String.◌∷◌ c) ih

trim_start-solid :
    (c : Char) (s : String) → is_whitespace c ≡ false → trim_start (String.◌∷◌ c s) ≡ String.◌∷◌ c s
unfolding trim_start
trim_start-solid c s h = rw h refl

trim-append :
    (s rest : String)
    → trim_end rest ≡ ""
    → trim rest ≡ ""
    → is_solid s ≡ true
    → trim (String.◌++◌ s rest) ≡ s
unfolding trim
trim-append String.[] rest dropped gone h =
    ap (λ t. trim_end (trim_start t)) (nil-append rest) ∙ gone
trim-append (String.◌∷◌ c s) rest dropped gone h =
    let solid : is_whitespace c ≡ false = ground arith in
    ap trim_end
      (ap trim_start (cons-append c s rest) ∙ trim_start-solid c (String.◌++◌ s rest) solid)
    ∙ ap trim_end (sym (cons-append c s rest))
    ∙ trim_end-append (String.◌∷◌ c s) rest dropped h

decode_setup_lem :
    {SocketAddr : Type 0} (host : Host SocketAddr) (text : String) (setup : Bytes)
    → host.decode64 text ≡ some setup
    → 0 < length setup
    → decode_setup host text ≡ ok setup
unfolding decode_setup
decode_setup_lem host text setup h full = ground arith

load-file :
    {SocketAddr : Type 0} (host : Host SocketAddr) (path text : String)
    → host.var "RG_OPAQUE_SETUP_FILE" ≡ some path
    → host.read_to_string path ≡ some text
    → load_opaque_setup host ≡ decode_setup host (trim text)
unfolding load_opaque_setup
load-file host path text set found = ground arith

-- What is read from the standard output.
abbrev pub stdout : {Event SocketAddr : Type 0} → List (Act Event SocketAddr) → String
stdout [] = ""
stdout (printed text ∷ acts) = String.◌++◌ text (stdout acts)
stdout (_ ∷ acts) = stdout acts

main-generate :
    {Event SocketAddr : Type 0} (machine : Machine Event SocketAddr)
    → machine.argument ≡ some "generate-setup"
    → main machine ≡ (ok tt, printed (String.◌++◌ (machine.encode64 machine.generated) "\n") ∷ [])
unfolding main
main-generate machine asked = rw asked refl

-- `generate-setup` succeeds and does nothing but print, and a server whose RG_OPAQUE_SETUP_FILE names a file with
-- just that output loads the generated secret, whatever RG_OPAQUE_SETUP holds; provided that the secret is
-- not empty, and that base64 decodes what it encoded and writes no white space.
pub generate_setup-load :
    {Event SocketAddr : Type 0} (machine : Machine Event SocketAddr) (host : Host SocketAddr)
    (path : String)
    → machine.argument ≡ some "generate-setup"
    → 0 < length machine.generated
    → is_solid (machine.encode64 machine.generated) ≡ true
    → host.decode64 (machine.encode64 machine.generated) ≡ some machine.generated
    → host.var "RG_OPAQUE_SETUP_FILE" ≡ some path
    → host.read_to_string path ≡ some (stdout (main machine).1)
    → ((main machine).0 ≡ ok tt)
      × ((main machine).1 ≡ printed (stdout (main machine).1) ∷ [])
      × (load_opaque_setup host ≡ ok machine.generated)
generate_setup-load machine host path asked full solid decodes set found =
    let text = machine.encode64 machine.generated in
    let ran = main-generate machine asked in
    let output : stdout (main machine).1 ≡ String.◌++◌ text "\n" = rw ran (append-nil _) in
    (
      rw ran refl,
      rw (output, ran) refl,
      load-file host path _ set found
          ∙ ap (λ line. decode_setup host (trim line)) output
          ∙ ap (decode_setup host) (trim-append text "\n" trim_end_line trim_line solid)
          ∙ decode_setup_lem host text machine.generated decodes full,
    )

-- The Debug text of a configuration tells nothing of its URLs and of the secret but its length.
debug_fields-redacted :
    {SocketAddr : Type 0} (show_addr : SocketAddr → String) (show_number : ℕ → String)
    (a b : Config SocketAddr)
    → a.addr ≡ b.addr
    → length a.opaque_setup ≡ length b.opaque_setup
    → debug_fields show_addr show_number a ≡ debug_fields show_addr show_number b
unfolding debug_fields
debug_fields-redacted show_addr show_number a b same size = rw (same, size) refl
