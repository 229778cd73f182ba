-- ===== src/SvgCheck/Tests.antt =====
-- Runs of the style scanner, after the tests of css.rs, and its theorems at small texts.
use pira.Common.{◌≡◌, refl, [], ◌∷◌, ok, err, codes}
use pira.Common.{◌≢◌, arith, false, All, inl, inr}
use pira.Common.Chars.{trim}
use pira.SvgCheck.Css.Local.{IsLocal, references-IsLocal}
use pira.SvgCheck.Css.Names.{
  Spelled, end, plain, escaped, code_point, no_space, references_from-import,
  references_from-external,
}
use pira.SvgCheck.Css.Shrinks.{references-ne-out_of_fuel}
use pira.SvgCheck.Css.{
  external, import_not_allowed, invalid_css, out_of_fuel, references, references_from, url,
  is_local, skip_from,
}

escaped_url :
    references (codes "fill: u\\72l(https://example.invalid/a)")
    ≡ err (external (codes "https://example.invalid/a"))
unfolding references
escaped_url = refl

escaped_argument :
    references (codes "fill: URL('\\68ttps://example.invalid/a')")
    ≡ err (external (codes "https://example.invalid/a"))
unfolding references
escaped_argument = refl

escaped_import : references (codes "@\\000069mport 'external.css';") ≡ err import_not_allowed
unfolding references
escaped_import = refl

local_references :
    references (codes "/* url(external) @import */ fill: u\\72l('\\23 local') url( data:a )")
    ≡ ok (codes "#local" ∷ codes "data:a" ∷ [])
unfolding references
local_references = refl

unended : references (codes "url('https://example.invalid/a'") ≡ err invalid_css
unfolding references
unended = refl

references-ne-out_of_fuel_example : references (codes "a: url(#b)") ≢ err out_of_fuel
references-ne-out_of_fuel_example = references-ne-out_of_fuel (codes "a: url(#b)")

one_local : references (codes "a: url(#b)") ≡ ok (codes "#b" ∷ [])
unfolding references
one_local = refl

references-IsLocal_example : All IsLocal (codes "#b" ∷ [])
references-IsLocal_example = references-IsLocal (codes "a: url(#b)") (codes "#b" ∷ []) one_local

-- The letters of a name, which ends where the text does.
import_tail : Spelled (codes "mport") (codes "mport") []
import_tail =
    plain b'm' refl
      (plain b'p' refl (plain b'o' refl (plain b'r' refl (plain b't' refl (end refl)))))

escaped_i : Spelled (codes "\\000069mport") (codes "import") []
escaped_i =
    escaped
      (code_point b'0' (codes "00069") (codes "mport") (codes "mport") refl
        (refl, (refl, (refl, (refl, (refl, tt))))) (omega arith) (inl refl) (no_space refl))
      import_tail

references_from-import_example :
    references_from 16 [] (codes " @\\000069mport") ≡ err import_not_allowed
unfolding skip_from
references_from-import_example =
    references_from-import 15 [] b' ' (codes "@\\000069mport") (codes "\\000069mport")
      (codes "import") [] refl escaped_i refl

escaped_u : Spelled (codes "u\\72l (b)") (codes "url") (codes " (b)")
escaped_u = plain b'u' refl (
    escaped
      (code_point b'7' (codes "2") (codes "l (b)") (codes "l (b)") refl (refl, tt) (omega arith)
        (inr refl) (no_space refl))
      (plain b'l' refl (end refl)))

reads_argument : url (codes "b)") ≡ ok (codes "b", [])
unfolding url
reads_argument = refl

b_not_local : is_local (trim (codes "b")) ≡ false
unfolding is_local trim
b_not_local = refl

references_from-external_example :
    references_from 10 [] (codes "u\\72l (b)") ≡ err (external (trim (codes "b")))
unfolding skip_from
references_from-external_example =
    references_from-external 9 [] b'u' b'u' (codes "\\72l (b)") (codes "\\72l (b)") (codes "url")
      (codes " (b)") (codes "b)") (codes "b") [] refl escaped_u refl refl reads_argument b_not_local
