-- ===== src/Receiver/Options.antt =====
-- `main` of receiver/main.cpp: the command line. An argument is its bytes; `stoi` is the library's
-- function, which gives the bit pattern of an int, or `none` where it throws.
use usb_lib.Prelude.{
  ℕ, ◌%◌, ◌≡◌, refl, List, [], ◌∷◌, Bool, true, false, ◌||◌, Option, none, some, if◌then◌else◌,
  arith,
}
use usb_lib.Words.{Bytes, IsU16}
use usb_lib.Text.{codes, to_string}
use usb_lib.Sender.{same_text}

pub record Options : Type 0 where
  pub host : Bytes
  pub port : ℕ
  pub list_only : Bool
  pub import_device : Bytes

abbrev pub no_options : Options
no_options = record { host = []; port = 0; list_only = false; import_device = [] }

-- What the loop over the arguments comes to: `helped` and `refused` are the exit codes 0 and 1, and
-- `thrown` is an exception of `stoi`, which `main` does not catch.
pub data Parsed : Type 0 where
  parsed : Options → Parsed
  helped refused thrown : Parsed

abbrev is_arg : Bytes → Bytes → Bytes → Bool
is_arg a short long = same_text a short || same_text a long

-- The value of `--port`, truncated to a uint16_t.
unfoldable pub parse_port : (Bytes → Option ℕ) → Bytes → Option ℕ
parse_port stoi text = elim (stoi text) [ none ↦ none | some n ↦ some (n % 65536) ]

-- The arguments behind the program's name.
unfoldable pub parse_options : (Bytes → Option ℕ) → List Bytes → Options → Parsed
unfolding parse_port
parse_options stoi [] o = parsed o
parse_options stoi (a ∷ []) o =
    if same_text a (codes "--help")
    then helped
    else if is_arg a (codes "-l") (codes "--list")
    then parsed (record o { list_only = true })
    else refused
parse_options stoi (a ∷ v ∷ more) o =
    let hosted = parse_options stoi more (record o { host = v }) in
    let listing = parse_options stoi (v ∷ more) (record o { list_only = true }) in
    let importing = parse_options stoi more (record o { import_device = v }) in
    let ported : Parsed = elim (parse_port stoi v) [
      | none ↦ thrown
      | some n ↦ parse_options stoi more (record o { port = n })
    ] in
    if same_text a (codes "--help")
    then helped
    else if is_arg a (codes "-h") (codes "--host")
    then hosted
    else if is_arg a (codes "-p") (codes "--port")
    then ported
    else if is_arg a (codes "-l") (codes "--list")
    then listing
    else if is_arg a (codes "-i") (codes "--import")
    then importing
    else refused

abbrev pub flag : Bool → Bytes → Bytes → Bytes
flag long a b = if long then b else a

-- The arguments that say what the options are, in their short or their long form.
unfoldable pub print_options : Bool → Options → List Bytes
print_options long o =
    flag long (codes "-h") (codes "--host")
    ∷ o.host
    ∷ flag long (codes "-p") (codes "--port")
    ∷ to_string o.port
    ∷ flag long (codes "-i") (codes "--import")
    ∷ o.import_device
    ∷ (if o.list_only then flag long (codes "-l") (codes "--list") ∷ [] else [])

-- If `stoi` reads the decimal digits of the port back, the arguments that say what the options are, in
-- their short or their long form, are parsed to these options.
pub parse_options-print_options :
    (stoi : Bytes → Option ℕ) (long : Bool) (o : Options)
    → IsU16 o.port
    → stoi (to_string o.port) ≡ some o.port
    → parse_options stoi (print_options long o) no_options ≡ parsed o
unfolding parse_options print_options parse_port same_text
parse_options-print_options stoi true o small back =
    let same : o.port % 65536 ≡ o.port = omega arith in rw (back, same) (rest o.list_only)
  where
    rest :
        (b : Bool)
        → parse_options stoi
            (if b then codes "--list" ∷ [] else [])
            (record o { list_only = false })
          ≡ parsed (record o { list_only = b })
    rest true = refl
    rest false = refl
parse_options-print_options stoi false o small back =
    let same : o.port % 65536 ≡ o.port = omega arith in rw (back, same) (rest o.list_only)
  where
    rest :
        (b : Bool)
        → parse_options stoi (if b then codes "-l" ∷ [] else []) (record o { list_only = false })
          ≡ parsed (record o { list_only = b })
    rest true = refl
    rest false = refl
