-- ===== src/Optiga/Crypt/Tests.antt =====
-- Runs of the update of a hash.
use decada_embedded_example.Base.{
  ℕ, ◌+◌, ◌≡◌, refl, ap, ◌∙◌, List, [], ◌∷◌, ◌++◌, true, Option, some, length, drop, get_or,
  if◌then◌else◌, arith,
}
use decada_embedded_example.Optiga.Status.{lib_success}
use decada_embedded_example.Optiga.Cmd.Apdu.{Device}
use decada_embedded_example.Optiga.Cmd.Request.{Field, unwritten}
use decada_embedded_example.Optiga.Cmd.Request.Fields.{fields_of}
use decada_embedded_example.Optiga.Crypt.Hash.{from_host, hash_update}
use decada_embedded_example.Optiga.Crypt.Hash.Step.{asks, imported, hash_command, Hashes}
use decada_embedded_example.Optiga.Crypt.Hash.Stream.{sha_context, Streams, hash_update-Streams}

-- A context whose first byte counts up by the bytes of the message.
abbrev total : List ℕ → ℕ
total [] = 0
total (b ∷ bytes) = b + total bytes

total-append : (a b : List ℕ) → total (a ++ b) ≡ total a + total b
total-append [] b = omega arith
total-append (x ∷ a) b = omega (arith, total-append a b)

abbrev add_up : List ℕ → List ℕ → List ℕ
add_up ctx bytes = (get_or ctx 0 0 + total bytes) ∷ unwritten 129

-- The device: what a command makes of its context, and the answer.
abbrev parsed : List ℕ → Option (List Field)
parsed command = fields_of (length (drop 4 command)) (drop 4 command)

abbrev taken_on : List ℕ → Option (List Field) → List ℕ
taken_on own (some ((tag, chunk) ∷ fs)) = add_up (imported fs own) chunk
taken_on own other = own

abbrev context_from : List ℕ → List (List ℕ) → List ℕ
context_from own [] = own
context_from own (command ∷ history) = context_from (taken_on own (parsed command)) history

context_from-append :
    (own : List ℕ) (history : List (List ℕ)) (command : List ℕ)
    → context_from own (history ++ (command ∷ []))
      ≡ taken_on (context_from own history) (parsed command)
context_from-append own [] command = refl
context_from-append own (first ∷ history) command =
    context_from-append (taken_on own (parsed first)) history command

abbrev answer_to : Option (List Field) → List ℕ → List ℕ
answer_to (some (first ∷ fs)) own =
    if asks fs then 0 ∷ 0 ∷ 0 ∷ 0 ∷ 6 ∷ 0 ∷ 130 ∷ own else 0 ∷ 0 ∷ 0 ∷ 0 ∷ []
answer_to other own = []

abbrev hasher : Device
hasher history command =
    some (answer_to (parsed command) (context_from (unwritten 130) (history ++ (command ∷ []))))

abbrev own_after : List (List ℕ) → List ℕ → List ℕ
own_after history payload = context_from (unwritten 130) (history ++ (hash_command payload ∷ []))

hasher-Hashes : Hashes hasher add_up
hasher-Hashes = record {
  context_after = context_from (unwritten 130);
  size = λ ctx bytes. refl;
  joins =
      λ ctx first second. ap (λ n. n ∷ unwritten 129) (omega (arith, total-append first second));
  steps = λ history payload chunk fs e.
      context_from-append (unwritten 130) history (hash_command payload)
      ∙ ap (taken_on (context_from (unwritten 130) history)) e;
  plain = λ history payload chunk fs e quiet.
      (0, 0, 0, ap (λ f. some (answer_to f (own_after history payload))) e ∙ rw quiet refl);
  context = λ history payload chunk fs e asked.
      (0, 0, 0, ap (λ f. some (answer_to f (own_after history payload))) e ∙ rw asked refl);
}

abbrev nine : List ℕ
nine = 1 ∷ 2 ∷ 3 ∷ 4 ∷ 5 ∷ 6 ∷ 7 ∷ 8 ∷ 9 ∷ []

-- In a buffer of 145 bytes there is room for 5 bytes beside an import, and for the rest beside an export.
hash_update-Streams_example :
    (sent : List (List ℕ)) × (hash_update hasher 145 true []
        (sha_context (unwritten 130))
        (from_host nine)
      ≡ some (lib_success, sha_context ((45 ∷ unwritten 129) ++ []), [] ++ sent))
    × Streams 145 ((6, unwritten 130) ∷ []) nine sent
hash_update-Streams_example =
    hash_update-Streams hasher add_up 145 [] (unwritten 130) nine hasher-Hashes (omega arith)
      (omega arith) (omega arith) (omega arith)
