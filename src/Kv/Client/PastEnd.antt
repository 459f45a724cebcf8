-- ===== src/Kv/Client/PastEnd.antt =====
-- `read_input_files` of p6/client.c takes the last line twice.
use cs537_group_projects.Base.{
  update, ℕ, ◌+◌, ◌<◌, ◌≤◌, ◌≡◌, refl, ap, ◌∙◌, List, [], ◌∷◌, length, none, true, false, leb,
  arith, inl, inr, ◌⊎◌,
}
use cs537_group_projects.Kv.Ring.{put_type, get_type}
use cs537_group_projects.Kv.Client.Input.{
  Token, Line, Requests, accepted, past_end, same_bytes, put_str, get_str, get_req_type, add_value,
  add_key, add_line_to_req, count_lines, read_lines, read_input_files,
}

-- The lines that are requests.
pub data IsRequest : Line → Type 0 where
  puts : (k v : Token) (rest : Line) → IsRequest (put_str ∷ k ∷ v ∷ rest)
  gets : (k : Token) (rest : Line) → IsRequest (get_str ∷ k ∷ rest)

abbrev pub AllRequests : List Line → Type 0
AllRequests [] = 0 ≤ 0
AllRequests (line ∷ file) = IsRequest line × AllRequests file

accepts :
    (atoi : Token → ℕ) (size : ℕ) (requests : Requests) (line : Line) (index : ℕ)
    → IsRequest line
    → index < size
    → (after : Requests) × (add_line_to_req atoi size requests line index ≡ accepted after)
unfolding add_line_to_req get_req_type same_bytes add_key add_value
accepts atoi size requests line index (IsRequest.puts k v rest) h =
    let inside : leb size index ≡ false = ground (arith, h) in
    let typed = update requests index (record (requests index) { t = put_type }) in
    let keyed = update typed index (record (typed index) { k = atoi k }) in
    (update keyed index (record (keyed index) { v = atoi v }), rw inside refl)
accepts atoi size requests line index (IsRequest.gets k rest) h =
    let inside : leb size index ≡ false = ground (arith, h) in
    let typed = update requests index (record (requests index) { t = get_type }) in
    (update typed index (record (typed index) { k = atoi k }), rw inside refl)

overruns :
    (atoi : Token → ℕ) (size : ℕ) (requests : Requests) (line : Line)
    → IsRequest line
    → add_line_to_req atoi size requests line size ≡ past_end
unfolding add_line_to_req get_req_type same_bytes
overruns atoi size requests line (IsRequest.puts k v rest) =
    let full : leb size size ≡ true = ground arith in rw full refl
overruns atoi size requests line (IsRequest.gets k rest) =
    let full : leb size size ≡ true = ground arith in rw full refl

count_lines-eq : (file : List Line) (nl : ℕ) → count_lines file nl ≡ nl + length file
unfolding count_lines
count_lines-eq [] nl = omega arith
count_lines-eq (line ∷ file) nl = omega (arith, count_lines-eq file (nl + 1))

read_lines-past :
    (atoi : Token → ℕ) (size : ℕ) (requests : Requests) (file : List Line) (line : Line) (index : ℕ)
    → AllRequests file
    → IsRequest line ⊎ (0 < length file)
    → index + length file ≡ size
    → read_lines atoi size requests file line index ≡ none
unfolding read_lines
read_lines-past atoi size requests [] line index all (inl last) e =
    let here : index ≡ size = omega (arith, e) in
    let over : add_line_to_req atoi size requests line index ≡ past_end =
      ap (add_line_to_req atoi size requests line) here ∙ overruns atoi size requests line last in
    rw (over, read_lines) refl
read_lines-past atoi size requests [] line index all (inr h) e = absurd (omega (arith, h))
read_lines-past atoi size requests (next ∷ file) line index (first, all) some_line e =
    let (after, kept) = accepts atoi size requests next index first (omega (arith, e)) in
    rw (kept, read_lines)
      (read_lines-past atoi size after file next (index + 1) all (inl first) (omega (arith, e)))

-- A file with a line, of which every line is a request and ends with a newline: reading it writes
-- behind the end of the array of requests, whatever stood in the array and the buffer before.
pub read_input_files-past_end :
    (atoi : Token → ℕ) (requests : Requests) (garbage : Line) (file : List Line)
    → AllRequests file
    → 0 < length file
    → read_input_files atoi requests garbage file ≡ none
unfolding read_input_files
read_input_files-past_end atoi requests garbage file all some_line =
    read_lines-past atoi (count_lines file 0) requests file garbage 0 all (inr some_line)
      (omega (arith, count_lines-eq file 0))
