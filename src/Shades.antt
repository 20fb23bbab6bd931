-- ===== src/Shades.antt =====
-- internal/shades/shades.go: the Open Color palette.
use wavelen.Prelude.{String, Bytes, codes, List, [], ◌∷◌, map}
use wavelen.Palette.{Common}

-- `Family`, and `family` of the table.
pub record Family : Type 0 where
  pub name : Bytes
  pub colors : List Common

abbrev shade : String → String → Common
shade hex name = record { hex = codes hex; name = codes name }

abbrev family : String → List Common → Family
family name colors = record { name = codes name; colors = colors }

unfoldable pub family_table : List Family
family_table =
    family "gray" (
      shade "#f8f9fa" "gray-0"
      ∷ shade "#f1f3f5" "gray-1"
      ∷ shade "#e9ecef" "gray-2"
      ∷ shade "#dee2e6" "gray-3"
      ∷ shade "#ced4da" "gray-4"
      ∷ shade "#adb5bd" "gray-5"
      ∷ shade "#868e96" "gray-6"
      ∷ shade "#495057" "gray-7"
      ∷ shade "#343a40" "gray-8"
      ∷ shade "#212529" "gray-9"
      ∷ [])
    ∷ family "red" (
        shade "#fff5f5" "red-0"
        ∷ shade "#ffe3e3" "red-1"
        ∷ shade "#ffc9c9" "red-2"
        ∷ shade "#ffa8a8" "red-3"
        ∷ shade "#ff8787" "red-4"
        ∷ shade "#ff6b6b" "red-5"
        ∷ shade "#fa5252" "red-6"
        ∷ shade "#f03e3e" "red-7"
        ∷ shade "#e03131" "red-8"
        ∷ shade "#c92a2a" "red-9"
        ∷ [])
    ∷ family "pink" (
        shade "#fff0f6" "pink-0"
        ∷ shade "#ffdeeb" "pink-1"
        ∷ shade "#fcc2d7" "pink-2"
        ∷ shade "#faa2c1" "pink-3"
        ∷ shade "#f783ac" "pink-4"
        ∷ shade "#f06595" "pink-5"
        ∷ shade "#e64980" "pink-6"
        ∷ shade "#d6336c" "pink-7"
        ∷ shade "#c2255c" "pink-8"
        ∷ shade "#a61e4d" "pink-9"
        ∷ [])
    ∷ family "grape" (
        shade "#f8f0fc" "grape-0"
        ∷ shade "#f3d9fa" "grape-1"
        ∷ shade "#eebefa" "grape-2"
        ∷ shade "#e599f7" "grape-3"
        ∷ shade "#da77f2" "grape-4"
        ∷ shade "#cc5de8" "grape-5"
        ∷ shade "#be4bdb" "grape-6"
        ∷ shade "#ae3ec9" "grape-7"
        ∷ shade "#9c36b5" "grape-8"
        ∷ shade "#862e9c" "grape-9"
        ∷ [])
    ∷ family "violet" (
        shade "#f3f0ff" "violet-0"
        ∷ shade "#e5dbff" "violet-1"
        ∷ shade "#d0bfff" "violet-2"
        ∷ shade "#b197fc" "violet-3"
        ∷ shade "#9775fa" "violet-4"
        ∷ shade "#845ef7" "violet-5"
        ∷ shade "#7950f2" "violet-6"
        ∷ shade "#7048e8" "violet-7"
        ∷ shade "#6741d9" "violet-8"
        ∷ shade "#5f3dc4" "violet-9"
        ∷ [])
    ∷ family "indigo" (
        shade "#edf2ff" "indigo-0"
        ∷ shade "#dbe4ff" "indigo-1"
        ∷ shade "#bac8ff" "indigo-2"
        ∷ shade "#91a7ff" "indigo-3"
        ∷ shade "#748ffc" "indigo-4"
        ∷ shade "#5c7cfa" "indigo-5"
        ∷ shade "#4c6ef5" "indigo-6"
        ∷ shade "#4263eb" "indigo-7"
        ∷ shade "#3b5bdb" "indigo-8"
        ∷ shade "#364fc7" "indigo-9"
        ∷ [])
    ∷ family "blue" (
        shade "#e7f5ff" "blue-0"
        ∷ shade "#d0ebff" "blue-1"
        ∷ shade "#a5d8ff" "blue-2"
        ∷ shade "#74c0fc" "blue-3"
        ∷ shade "#4dabf7" "blue-4"
        ∷ shade "#339af0" "blue-5"
        ∷ shade "#228be6" "blue-6"
        ∷ shade "#1c7ed6" "blue-7"
        ∷ shade "#1971c2" "blue-8"
        ∷ shade "#1864ab" "blue-9"
        ∷ [])
    ∷ family "cyan" (
        shade "#e3fafc" "cyan-0"
        ∷ shade "#c5f6fa" "cyan-1"
        ∷ shade "#99e9f2" "cyan-2"
        ∷ shade "#66d9e8" "cyan-3"
        ∷ shade "#3bc9db" "cyan-4"
        ∷ shade "#22b8cf" "cyan-5"
        ∷ shade "#15aabf" "cyan-6"
        ∷ shade "#1098ad" "cyan-7"
        ∷ shade "#0c8599" "cyan-8"
        ∷ shade "#0b7285" "cyan-9"
        ∷ [])
    ∷ family "teal" (
        shade "#e6fcf5" "teal-0"
        ∷ shade "#c3fae8" "teal-1"
        ∷ shade "#96f2d7" "teal-2"
        ∷ shade "#63e6be" "teal-3"
        ∷ shade "#38d9a9" "teal-4"
        ∷ shade "#20c997" "teal-5"
        ∷ shade "#12b886" "teal-6"
        ∷ shade "#0ca678" "teal-7"
        ∷ shade "#099268" "teal-8"
        ∷ shade "#087f5b" "teal-9"
        ∷ [])
    ∷ family "green" (
        shade "#ebfbee" "green-0"
        ∷ shade "#d3f9d8" "green-1"
        ∷ shade "#b2f2bb" "green-2"
        ∷ shade "#8ce99a" "green-3"
        ∷ shade "#69db7c" "green-4"
        ∷ shade "#51cf66" "green-5"
        ∷ shade "#40c057" "green-6"
        ∷ shade "#37b24d" "green-7"
        ∷ shade "#2f9e44" "green-8"
        ∷ shade "#2b8a3e" "green-9"
        ∷ [])
    ∷ family "lime" (
        shade "#f4fce3" "lime-0"
        ∷ shade "#e9fac8" "lime-1"
        ∷ shade "#d8f5a2" "lime-2"
        ∷ shade "#c0eb75" "lime-3"
        ∷ shade "#a9e34b" "lime-4"
        ∷ shade "#94d82d" "lime-5"
        ∷ shade "#82c91e" "lime-6"
        ∷ shade "#74b816" "lime-7"
        ∷ shade "#66a80f" "lime-8"
        ∷ shade "#5c940d" "lime-9"
        ∷ [])
    ∷ family "yellow" (
        shade "#fff9db" "yellow-0"
        ∷ shade "#fff3bf" "yellow-1"
        ∷ shade "#ffec99" "yellow-2"
        ∷ shade "#ffe066" "yellow-3"
        ∷ shade "#ffd43b" "yellow-4"
        ∷ shade "#fcc419" "yellow-5"
        ∷ shade "#fab005" "yellow-6"
        ∷ shade "#f59f00" "yellow-7"
        ∷ shade "#f08c00" "yellow-8"
        ∷ shade "#e67700" "yellow-9"
        ∷ [])
    ∷ family "orange" (
        shade "#fff4e6" "orange-0"
        ∷ shade "#ffe8cc" "orange-1"
        ∷ shade "#ffd8a8" "orange-2"
        ∷ shade "#ffc078" "orange-3"
        ∷ shade "#ffa94d" "orange-4"
        ∷ shade "#ff922b" "orange-5"
        ∷ shade "#fd7e14" "orange-6"
        ∷ shade "#f76707" "orange-7"
        ∷ shade "#e8590c" "orange-8"
        ∷ shade "#d9480f" "orange-9"
        ∷ [])
    ∷ []

-- `Families`: a copy of the table.
unfoldable pub families : List Family
unfolding family_table
families =
    map
      (λ f. record {
        name = f.name;
        colors = map (λ c. record { hex = c.hex; name = c.name }) f.colors;
      })
      family_table
