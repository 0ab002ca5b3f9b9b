-- ===== src/Server/Frames.antt =====
-- The replies of the servers as items of the protocol (RESP): an array announces how many items follow it.
pub mod Boards
pub mod Commands
pub mod Table
pub mod Single
use fpga_tools.Prelude.{
  ℕ, zero, suc, ◌+◌, ◌-◌, ◌^◌, ◌≡◌, refl, sym, ap, ◌∙◌, arith, Bool, true, false, Option, none,
  some, List, [], ◌∷◌, ◌++◌, map, if◌then◌else◌, ltb, ◌==◌, not, ◌&&◌, bit_and, Bool-cases,
  Option-cases, inl, inr,
}
use Prim.Native.String.{String}
use fpga_tools.Commands.{
  Args, Reply, array, ok, status, error, integer, null, characters, undefined, CliFunc, Func, func,
  legacy_func, ServerCommand, All,
}
use fpga_tools.Server.Call.{call_function, integers, legacy_reply, stored_at, args_uint}
use fpga_tools.Server.Boards.{both}
use fpga_tools.Server.Active as Active

-- How many items a reply announces; none, if it is no item itself.
unfoldable pub announced : Reply → Option ℕ
announced (array k) = some k
announced (characters text) = none
announced undefined = none
announced ok = some 0
announced (status name k) = some 0
announced (error message) = some 0
announced (integer k) = some 0
announced null = some 0

-- Whether the replies are `n` whole items.
unfoldable pub complete : ℕ → List Reply → Bool
unfolding announced
complete n [] = n == 0
complete zero (reply ∷ rest) = false
complete (suc n) (reply ∷ rest) = elim (announced reply) [
  | none ↦ false
  | some k ↦ complete (k + n) rest
]

-- The replies are `n` items; a handler that does not end has none.
unfoldable pub are_items : ℕ → Option (List Reply) → Bool
unfolding complete
are_items n none = true
are_items n (some replies) = complete n replies

unfoldable pub AreItems : ℕ → Option (List Reply) → Type 0
unfolding are_items
AreItems n replies = are_items n replies ≡ true

pub step :
    (n k : ℕ) (x : Reply) (xs : List Reply)
    → announced x ≡ some k
    → complete (suc n) (x ∷ xs) ≡ complete (k + n) xs
unfolding complete
step n k x xs item = ground arith

complete-append :
    (m n : ℕ) (xs ys : List Reply)
    → complete m xs ≡ true
    → complete (m + n) (xs ++ ys) ≡ complete n ys
unfolding complete
complete-append m n [] ys whole =
    let nothing : m + n ≡ n = ground arith in ap (λ t. complete t ys) nothing
complete-append zero n (x ∷ xs) ys whole = absurd (ground arith)
complete-append (suc m) n (x ∷ xs) ys whole = elim (Option-cases (announced x)) [
  | inl no_item ↦ absurd (ground arith)
  | inr (k, item) ↦
      let next : suc m + n ≡ suc (m + n) = omega arith in
      let whole' : complete (k + m) xs ≡ true = ground arith in
      let moved : k + (m + n) ≡ k + m + n = omega arith in
      ap (λ t. complete t (x ∷ (xs ++ ys))) next
      ∙ step (m + n) k x (xs ++ ys) item
      ∙ ap (λ t. complete t (xs ++ ys)) moved
      ∙ complete-append (k + m) n xs ys whole'
]

complete-integers : (args : Args) (n : ℕ) → complete n (integers args n) ≡ true
unfolding complete integers
complete-integers args zero = refl
complete-integers args (suc n) =
    let same : 0 + n ≡ n = omega arith in
    ap (λ t. complete t (integers (λ i. args (suc i)) n)) same
    ∙ complete-integers (λ i. args (suc i)) n

legacy_reply-complete :
    (nresp resp : ℕ) (args : Args) → complete 1 (legacy_reply nresp resp args) ≡ true
unfolding complete legacy_reply
legacy_reply-complete nresp resp args = ground (arith, complete-integers args (nresp + 0))

-- Lists of replies one after the other.
pub both-AreItems :
    (m n : ℕ) (xs ys : Option (List Reply))
    → AreItems m xs
    → AreItems n ys
    → AreItems (m + n) (both xs ys)
unfolding AreItems both
both-AreItems m n none ys first later = refl
both-AreItems m n (some xs) none first later = refl
both-AreItems m n (some xs) (some ys) first later = complete-append m n xs ys first ∙ later

-- The words that the look-up lets through to an entry for `nargs` words.
unfoldable pub fits : ℕ → List String → Bool
unfolding Active.length
fits nargs argv = not (ltb 0 nargs && not (nargs == Active.length argv))

-- A handler that sends replies itself sends one item, given as many words as its entry counts.
unfoldable pub SendsOneItem : {S : Type 0} → ℕ → CliFunc S → Type 0
unfolding AreItems fits
SendsOneItem {S} nargs f =
    (argv : List String) (s : S) → fits nargs argv ≡ true → AreItems 1 (f argv s).0

unfoldable pub FuncSendsOneItem : {S : Type 0} → ℕ → Func S → Type 0
unfolding SendsOneItem
FuncSendsOneItem nargs (func f) = SendsOneItem nargs f
FuncSendsOneItem nargs (legacy_func f) = Unit {0}

reply_of_answer :
    (nresp : ℕ) (args : Args) (answer : Option (ℕ × List ℕ))
    → AreItems 1 (elim answer [
      | none ↦ none
      | some (resp, stores) ↦ some (legacy_reply nresp resp (stored_at stores args))
    ])
unfolding AreItems
reply_of_answer nresp args none = refl
reply_of_answer nresp args (some (resp, stores)) =
    legacy_reply-complete nresp resp (stored_at stores args)

-- So does the call of any handler then.
pub call_function-SendsOneItem :
    {S : Type 0} (strtoul : String → ℕ) (memory : Args) (nargs nresp : ℕ) (f : Func S)
    → FuncSendsOneItem nargs f
    → SendsOneItem nargs (call_function strtoul memory nargs nresp f)
unfolding call_function FuncSendsOneItem SendsOneItem
call_function-SendsOneItem strtoul memory nargs nresp (func f) sends argv s fit = sends argv s fit
call_function-SendsOneItem strtoul memory nargs nresp (legacy_func f) sends argv s fit =
    let args = args_uint strtoul nargs argv memory in
    ground (arith, reply_of_answer nresp args (f args s).0)
