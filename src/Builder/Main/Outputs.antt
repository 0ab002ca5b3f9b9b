-- ===== src/Builder/Main/Outputs.antt =====
-- The events among what the main loop of the data builder sends.
use fpga_tools.Prelude.{ℕ, suc, ◌+◌, ◌≡◌, Bool, arith, List, [], ◌∷◌, ◌++◌, if◌then◌else◌}
use fpga_tools.Builder.Main.{Output, responded, published_stats, validated, published, saved}

-- The events that are published among what is sent.
unfoldable pub publications : List Output → ℕ
publications [] = 0
publications (published event ∷ outputs) = suc (publications outputs)
publications (responded m ∷ outputs) = publications outputs
publications (published_stats stats ∷ outputs) = publications outputs
publications (validated n ∷ outputs) = publications outputs
publications (saved bytes ∷ outputs) = publications outputs

pub publications-append :
    (xs ys : List Output) → publications (xs ++ ys) ≡ publications xs + publications ys
unfolding publications
publications-append [] ys = omega arith
publications-append (published event ∷ xs) ys = omega (arith, publications-append xs ys)
publications-append (responded m ∷ xs) ys = publications-append xs ys
publications-append (published_stats stats ∷ xs) ys = publications-append xs ys
publications-append (validated n ∷ xs) ys = publications-append xs ys
publications-append (saved bytes ∷ xs) ys = publications-append xs ys

-- The events that are validated among what is sent.
unfoldable pub validations : List Output → ℕ
validations [] = 0
validations (published event ∷ outputs) = validations outputs
validations (responded m ∷ outputs) = validations outputs
validations (published_stats stats ∷ outputs) = validations outputs
validations (validated n ∷ outputs) = suc (validations outputs)
validations (saved bytes ∷ outputs) = validations outputs

pub validations-append :
    (xs ys : List Output) → validations (xs ++ ys) ≡ validations xs + validations ys
unfolding validations
validations-append [] ys = omega arith
validations-append (published event ∷ xs) ys = validations-append xs ys
validations-append (responded m ∷ xs) ys = validations-append xs ys
validations-append (published_stats stats ∷ xs) ys = validations-append xs ys
validations-append (validated n ∷ xs) ys = omega (arith, validations-append xs ys)
validations-append (saved bytes ∷ xs) ys = validations-append xs ys

-- Each event that is validated is published if there is a connection to redis, and otherwise none is.
abbrev pub ArePublished : Bool → List Output → Type 0
ArePublished redis outputs = publications outputs ≡ (if redis then validations outputs else 0)

pub append-ArePublished :
    (redis : Bool) (xs ys : List Output)
    → ArePublished redis xs
    → ArePublished redis ys
    → ArePublished redis (xs ++ ys)
append-ArePublished redis xs ys px py =
    ground (arith, publications-append xs ys, validations-append xs ys)
