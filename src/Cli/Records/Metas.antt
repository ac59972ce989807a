-- ===== src/Cli/Records/Metas.antt =====
-- readMetas of cmd/sumcli/handlers/create_record.go on well-formed lines.
use sum.Prelude.{
  ℕ, zero, suc, ◌<◌, ◌≡◌, refl, ap, String, Bool, true, false, List, [], ◌∷◌, ◌++◌, arith,
}
use sum.Prelude.Tests.{string_eq, ◌==◌}
use sum.Prelude.Lists.{length, All, length-append}
use sum.Prelude.Map.{put}
use sum.Cli.Console.{
  Console, Closing, returned, Event, line, interrupt, eof, failure, Tools, ◌>>=◌, continue_with,
  pure, try, readline,
}
use sum.Cli.Text.{parse_meta}
use sum.Cli.Records.{read_answer, read_with_prompt, metas_loop, read_metas}

-- a line with the key and the value that it stands for
abbrev pub Item : Type 0
Item = String × (String × String)

unfoldable pub lines_of : List Item → List Event
lines_of [] = []
lines_of ((s, (k, v)) ∷ items) = line s ∷ lines_of items

-- the map after the items, of which a later one replaces an earlier one of its key
unfoldable pub put_all : List Item → List (String × String) → List (String × String)
put_all [] meta = meta
put_all ((s, (k, v)) ∷ items) meta = put_all items (put k v meta)

-- what stops the loop: a blank line, an interrupt, or the end of the terminal
unfoldable pub stops : Event → Bool
stops (line s) = s == ""
stops (interrupt s) = true
stops eof = true
stops (failure s e) = s == ""

length-lines_of : (items : List Item) → length (lines_of items) ≡ length items
unfolding lines_of
length-lines_of [] = refl
length-lines_of ((s, (k, v)) ∷ items) = omega (arith, length-lines_of items)

module _ {B : Type 0} (tools : Tools B) where
  -- the line is not blank, and SplitBy takes it apart into its key and its value
  abbrev pub IsItem : Item → Type 0
  IsItem (s, (k, v)) = ((s == "") ≡ false) × (tools.split_by s ":" ≡ k ∷ v ∷ [])

module _ {W B : Type 0} (tools : Tools B) where
  read_answer-stops :
      (stop : Event) (c : Console W)
      → stops stop ≡ true
      → read_answer tools stop c ≡ (c, returned "")
  unfolding stops read_answer pure
  read_answer-stops (line s) c h = ap (λ t. (c, returned t)) ((string_eq.means_eq s "").0 h)
  read_answer-stops (interrupt s) c h = refl
  read_answer-stops eof c h = refl
  read_answer-stops (failure s e) c h = rw (h) refl

  metas_loop_lem :
      (items : List Item) (meta : List (String × String)) (stop : Event) (rest : List Event)
      (fuel : ℕ) (w : W) (printed : List String) (closing : Closing)
      → All (IsItem tools) items
      → stops stop ≡ true
      → length items < fuel
      → metas_loop tools fuel meta (record {
        world = w;
        input = lines_of items ++ stop ∷ rest;
        output = printed;
        closing = closing;
      })
        ≡ (
          record { world = w; input = rest; output = printed; closing = closing },
          returned (put_all items meta),
        )
  unfolding metas_loop put_all lines_of ◌>>=◌ continue_with read_with_prompt readline pure try
      parse_meta read_answer
  metas_loop_lem items meta stop rest zero w printed closing m h l = absurd (omega arith)
  metas_loop_lem [] meta stop rest (suc fuel) w printed closing m h l =
      rw
        (
          metas_loop,
          read_with_prompt,
          read_answer-stops stop
              (record { world = w; input = rest; output = printed; closing = closing }) h,
        )
        refl
  metas_loop_lem ((s, (k, v)) ∷ items) meta stop rest (suc fuel) w printed closing ((b, p), m) h l =
      rw (b) (
        rw (parse_meta, p)
          (metas_loop_lem items (put k v meta) stop rest fuel w printed closing m h (omega arith)))

  -- On lines of a key and a value each, with a blank line, an interrupt or the end of the terminal
  -- after them, readMetas returns the map of the items; it takes these events from the terminal
  -- and changes nothing else.
  pub read_metas_lem :
      (items : List Item) (stop : Event) (rest : List Event) (w : W) (printed : List String)
      (closing : Closing)
      → All (IsItem tools) items
      → stops stop ≡ true
      → read_metas tools (record {
        world = w;
        input = lines_of items ++ stop ∷ rest;
        output = printed;
        closing = closing;
      })
        ≡ (
          record { world = w; input = rest; output = printed; closing = closing },
          returned (put_all items []),
        )
  unfolding read_metas
  read_metas_lem items stop rest w printed closing m h =
      metas_loop_lem items [] stop rest (suc (length (lines_of items ++ stop ∷ rest))) w printed
        closing m h
        (omega (arith, length-append (lines_of items) (stop ∷ rest), length-lines_of items))
