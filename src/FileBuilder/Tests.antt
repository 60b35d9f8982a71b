-- ===== src/FileBuilder/Tests.antt =====
-- Builders that are used once and twice.
use zedlibs.Prelude.{◌≡◌, refl, true, false, ◌||◌}
use zedlibs.FileBuilder.{options, read, write, set_option, access_flags, adjust_flags, open_file}
use zedlibs.FileBuilder.Flags.{wanted, access, chosen, open_file-wanted}

-- Octal 0644.
open_file-wanted_example :
    ((open_file (chosen true true false true true 420)).0
      ≡ wanted (access true (true || false)) false true true)
    × ((open_file (chosen true true false true true 420)).1 ≡ 420)
open_file-wanted_example = open_file-wanted true true false true true 420

new_file : (open_file (chosen true true false true true 420)).0 ≡ 578
unfolding open_file adjust_flags access_flags set_option
new_file = refl

-- A builder that has opened a file for writing opens the next one for writing too, although only
-- `read` is on.
second_file :
    (open_file (
      set_option
        (read true)
        (set_option (write false) (open_file (set_option (write true) options)).2))).0
    ≡ 1
unfolding open_file adjust_flags access_flags set_option
second_file = refl
