-- ===== src/Kv/Client/Input.antt =====
-- The workload file of p6/client.c: `count_lines`, `add_line_to_req` and `read_input_files`. A file is
-- what successive calls of `fgets` give, each as the tokens that `strtok` finds in it; a call behind
-- the last sets the end-of-file mark and leaves the line as it was. What `atoi` gives is an argument.
use cs537_group_projects.Base.{
  update, ℕ, ◌+◌, List, [], ◌∷◌, Option, none, some, Bool, true, false, ◌&&◌, ◌==◌, leb,
  if◌then◌else◌,
}
use cs537_group_projects.Kv.Ring.{put_type, get_type}
use cs537_group_projects.Kv.Client.{Request}

abbrev pub Token : Type 0
Token = List ℕ

abbrev pub Line : Type 0
Line = List Token

-- `!strcmp(a, b)`
unfoldable pub same_bytes : Token → Token → Bool
same_bytes [] [] = true
same_bytes [] (y ∷ ys) = false
same_bytes (x ∷ xs) [] = false
same_bytes (x ∷ xs) (y ∷ ys) = x == y && same_bytes xs ys

-- `PUT_STR` and `GET_STR`
abbrev pub put_str : Token
put_str = 112 ∷ 117 ∷ 116 ∷ []

abbrev pub get_str : Token
get_str = 103 ∷ 101 ∷ 116 ∷ []

unfoldable pub get_req_type : Token → Option ℕ
get_req_type req_str =
    if same_bytes req_str put_str
    then some put_type
    else (if same_bytes req_str get_str then some get_type else none)

-- 0 or -1, with the array afterwards; or a write behind its end.
pub data Added : Type 0 where
  accepted rejected : (ℕ → Request) → Added
  past_end : Added

abbrev pub Requests : Type 0
Requests = ℕ → Request

-- The tokens behind the key.
unfoldable pub add_value : (Token → ℕ) → Requests → ℕ → ℕ → Line → Added
add_value atoi requests index type rest =
    if type == put_type
    then elim rest [
      | [] ↦ rejected requests
      | tok ∷ more ↦ accepted (update requests index (record (requests index) { v = atoi tok }))
    ]
    else accepted requests

-- The tokens behind the type.
unfoldable pub add_key : (Token → ℕ) → Requests → ℕ → ℕ → Line → Added
add_key atoi requests index type [] = rejected requests
add_key atoi requests index type (tok ∷ rest) =
    add_value atoi (update requests index (record (requests index) { k = atoi tok })) index type
      rest

-- `requests` has `num_requests` elements.
unfoldable pub add_line_to_req : (Token → ℕ) → ℕ → Requests → Line → ℕ → Added
add_line_to_req atoi num_requests requests [] index = rejected requests
add_line_to_req atoi num_requests requests (tok ∷ rest) index = elim (get_req_type tok) [
  | none ↦ rejected requests
  | some type ↦
      if leb num_requests index
      then past_end
      else add_key atoi (update requests index (record (requests index) { t = type })) index type
          rest
]

unfoldable pub count_lines : List Line → ℕ → ℕ
count_lines [] nl = nl
count_lines (line ∷ file) nl = count_lines file (nl + 1)

-- The loop of `read_input_files`: the file that is left, the line in the buffer, and `index`. The array
-- and the count at the end, or none after a write behind the end of the array.
unfoldable pub read_lines :
    (Token → ℕ) → ℕ → Requests → List Line → Line → ℕ → Option (Requests × ℕ)
read_lines atoi num_requests requests [] line index =
    elim (add_line_to_req atoi num_requests requests line index) [
      | past_end ↦ none
      | rejected after ↦ some (after, index)
      | accepted after ↦ some (after, index + 1)
    ]
read_lines atoi num_requests requests (next ∷ file) line index =
    let refused = λ (after : Requests). read_lines atoi num_requests after file next index in
    let kept = λ (after : Requests). read_lines atoi num_requests after file next (index + 1) in
    elim (add_line_to_req atoi num_requests requests next index) [
      | past_end ↦ none
      | rejected after ↦ refused after
      | accepted after ↦ kept after
    ]

-- With an array of one element for each line; `garbage` is what the buffer and the array hold before.
unfoldable pub read_input_files : (Token → ℕ) → Requests → Line → List Line → Option (Requests × ℕ)
read_input_files atoi requests garbage file =
    read_lines atoi (count_lines file 0) requests file garbage 0
