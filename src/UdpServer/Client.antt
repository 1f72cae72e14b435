-- ===== src/UdpServer/Client.antt =====
-- udp_client_server/main.c: the client, and main, which chooses between the two by a line of input.
-- A pass of the client says what recvfrom left in the array, `none` where it left nothing. A result
-- of `none` is a string read past the end of its array.
use eltex.Base.{ℕ, ◌≡◌, refl, Option, some, none, List, [], ◌∷◌, ◌>>=◌, replicate, take, inl, inr}
use eltex.Cstring.{Sign, less, equal, greater, strlen, strcmp, text, lex, IsTerminated}
use eltex.Cstring.Laws.{strcmp-lex}
use eltex.Messages.{msg_size, fill}

-- The array behind bzero and recvfrom.
abbrev pub received : Option (List ℕ) → List ℕ
received none = replicate msg_size 0
received (some msg) = fill (replicate msg_size 0) msg

-- `while (running)`: what each pass sends, which is an array of zeros, and what it prints.
unfoldable pub client : List (Option (List ℕ)) → Option (List (List ℕ × List ℕ))
client [] = some []
client (a ∷ passes) = do
  n ← strlen (received a)
  rest ← client passes
  some ((replicate msg_size 0, take n (received a)) ∷ rest)

pub data Program : Type 0 where
  server_program client_program : Program

abbrev pub chosen : Sign → Program
chosen greater = server_program
chosen equal = client_program
chosen less = client_program

-- "server".
abbrev pub server_word : List ℕ
server_word = b's' ∷ b'e' ∷ b'r' ∷ b'v' ∷ b'e' ∷ b'r' ∷ 0 ∷ []

-- The branch of main that a line takes.
unfoldable pub main : List ℕ → Option Program
main command = strcmp command server_word >>= λ s. some (chosen s)

-- Any line that stands behind the word "server" in the order of strings starts the server, as
-- "server" with its line end does, and any other the client.
main-lex :
    (command : List ℕ)
    → IsTerminated command
    → main command ≡ some (chosen (lex (text command) (text server_word)))
unfolding main
main-lex command ended =
    rw (main, strcmp-lex command server_word ended (inr (inr (inr (inr (inr (inr (inl refl))))))))
