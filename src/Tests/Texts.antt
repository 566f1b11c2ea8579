-- ===== src/Tests/Texts.antt =====
-- The string functions and the file format at short strings.
use Prim.Native.Nat.{min}
use netcosm.Base.{
  ◌+◌, ◌-◌, ◌≤◌, ◌<◌, ◌≡◌, ◌⊎◌, refl, true, false, [], ◌++◌, length, take, ltb, if◌then◌else◌,
  arith,
}
use netcosm.Base.Run.{ok, abort}
use netcosm.Stream.Laws.{read_string-write_string, read_word-le_bytes}
use netcosm.Stream.{read_string, write_string, read_word, le_bytes}
use netcosm.Text
use netcosm.Text.Case.{strcasecmp-cases, strcasecmp-all_lower}
use netcosm.Text.Concat.{strlcat, strlcat-take}
use netcosm.Text.Cruft.{remove_cruft, remove_cruft-IsClean, IsClean, starts_line}
use netcosm.Text.Noun.{format_noun, format_noun-phrase, noun_phrase, decimal}
use netcosm.Text.{Bytes, ascii, strcasecmp_eq, strcmp_eq, all_lower, all_upper}

two_lamps : format_noun 128 (ascii "lamp") 12 true true ≡ ok (ascii "12 lamps")
unfolding format_noun strlcat decimal
two_lamps = refl

an_axe : format_noun 5 (ascii "axe") 1 true true ≡ ok (ascii "An a")
unfolding format_noun strlcat Text.is_vowel
an_axe = refl

-- A line of line ends alone is left as it is.
blank_line : remove_cruft (ascii "\r\n") ≡ ascii "\r\n"
unfolding remove_cruft
blank_line = refl

command_line : remove_cruft (ascii "look\r\n") ≡ ascii "look"
unfolding remove_cruft
command_line = refl

strcasecmp-cases_example :
    (strcasecmp_eq (all_upper (ascii "Lamp")) (ascii "Lamp") ≡ true)
    × (strcasecmp_eq (all_lower (ascii "Lamp")) (ascii "Lamp") ≡ true)
strcasecmp-cases_example = strcasecmp-cases (ascii "Lamp")

strcasecmp-all_lower_example :
    strcasecmp_eq (ascii "Lamp") (ascii "LAMP")
    ≡ strcmp_eq (all_lower (ascii "Lamp")) (all_lower (ascii "LAMP"))
strcasecmp-all_lower_example = strcasecmp-all_lower (ascii "Lamp") (ascii "LAMP")

strlcat-take_example :
    let (out, ret) = strlcat (ascii "There is ") (ascii "a lamp") 12 in
    (ret ≡ length (ascii "a lamp") + min 12 (length (ascii "There is ")))
    × (length (ascii "There is ") < 12 → out ≡ take (12 - 1) (ascii "There is " ++ ascii "a lamp"))
    × (length (ascii "There is ") < 12 → ret < 12 → out ≡ ascii "There is " ++ ascii "a lamp")
    × (12 ≤ length (ascii "There is ") → out ≡ ascii "There is ")
strlcat-take_example = strlcat-take (ascii "There is ") (ascii "a lamp") 12

format_noun-phrase_example :
    format_noun 8 (ascii "lamp") 3 true false
    ≡ (if ltb 1 8 then ok (take (8 - 1) (noun_phrase (ascii "lamp") 3 true false)) else abort)
format_noun-phrase_example = format_noun-phrase 8 (ascii "lamp") 3 true false (λ h. cc)

remove_cruft-IsClean_example :
    IsClean (remove_cruft (ascii "look\r\n"))
    × ((rest : Bytes) × (ascii "look\r\n" ≡ remove_cruft (ascii "look\r\n") ++ rest)
        × ((rest ≡ []) ⊎ (starts_line rest ≡ true)))
remove_cruft-IsClean_example = remove_cruft-IsClean (ascii "look\r\n") refl

read_word-le_bytes_example : read_word 4 (le_bytes 4 70000 ++ ascii "x") ≡ ok (70000, ascii "x")
read_word-le_bytes_example = read_word-le_bytes 4 70000 (ascii "x") (omega arith)

read_string-write_string_example :
    read_string (write_string (ascii "sword") ++ ascii "x") ≡ ok (ascii "sword", ascii "x")
read_string-write_string_example =
    read_string-write_string (ascii "sword") (ascii "x") (omega arith)
