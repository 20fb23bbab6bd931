-- ===== src/Tests/Colors.antt =====
-- Runs of the color mathematics and of the handlers over it, with a coarse arithmetic.
use wavelen.Prelude.{ℕ, ◌<◌, codes, true, none, ok, [], ◌≡◌, ◌⊎◌, ◌↔◌, refl}
use wavelen.Color.Oklab.{Triple}
use wavelen.Color.Gamut.{fitted, is_shown, max_chroma_at, samples}
use wavelen.Color.Gamut.Settled.{SettlesAt, fitted_lem}
use wavelen.Color.SortKey.{bucket, group_of, chroma_of, key_of_oklab}
use wavelen.Color.SortKey.Packed.{Before, IsInRange, thousandths, key_of_oklab-Before}
use wavelen.Http.Message.{Request}
use wavelen.Http.Harmony.{handle_harmony}
use wavelen.Http.Harmony.Answers.{Answered, handle_harmony-Answered}
use wavelen.Http.Info.{handle_color_info}
use wavelen.Http.Info.Lossless.{Informs, handle_color_info-Informs}
use wavelen.Tests.{validation}
use wavelen.Tests.Coarse.{coarse}

-- A lightness, a chroma and a hue.
abbrev wanted : Triple ℕ
wanted = (16, 20, 15)

fitted_lem_example :
    ((is_shown wanted.0 wanted.2 wanted.2 wanted.1 ≡ true)
      × (fitted wanted.0 wanted.1 wanted.2 wanted.2 ≡ (wanted.0, wanted.1)))
    ⊎ SettlesAt
        (λ (l : ℕ). max_chroma_at l wanted.2 wanted.2)
        wanted.1
        samples
        (fitted wanted.0 wanted.1 wanted.2 wanted.2)
fitted_lem_example = fitted_lem wanted.0 wanted.1 wanted.2 wanted.2

abbrev dark : Triple ℕ
dark = (12, 14, 15)

abbrev light : Triple ℕ
light = (18, 14, 15)

dark-IsInRange : IsInRange dark
unfolding bucket
dark-IsInRange = (refl, refl)

light-IsInRange : IsInRange light
unfolding bucket
light-IsInRange = (refl, refl)

key_of_oklab-Before_example :
    ((key_of_oklab dark < key_of_oklab light)
      ↔ Before
          (group_of dark.1 dark.2)
          (thousandths dark.0)
          (thousandths (chroma_of dark.1 dark.2))
          (group_of light.1 light.2)
          (thousandths light.0)
          (thousandths (chroma_of light.1 light.2)))
    × (key_of_oklab dark < 2147483648)
key_of_oklab-Before_example = key_of_oklab-Before dark light dark-IsInRange light-IsInRange

-- The triad of #008080.
abbrev triad_request : Request
triad_request = record {
  path_id = [];
  path_hex = codes "008080";
  path_harmony = codes "triad";
  query = λ name. [];
  limit = ok 0;
  authorization = [];
  token_hash = none;
}

handle_harmony-Answered_example :
    Answered ℕ validation triad_request (handle_harmony ℕ validation triad_request)
handle_harmony-Answered_example = handle_harmony-Answered ℕ validation triad_request

handle_color_info-Informs_example :
    Informs ℕ validation triad_request (handle_color_info ℕ validation triad_request)
handle_color_info-Informs_example = handle_color_info-Informs ℕ validation triad_request
