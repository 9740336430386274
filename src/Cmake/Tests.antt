-- ===== src/Cmake/Tests.antt =====
-- Edits of concrete CMakeLists.txt files, and the theorems at some of them.
use hachoir.Prelude.{List, map, Text, ◌++◌, ◌⊎◌, true, false, [], ◌∷◌, codes, ◌≡◌, refl}
use hachoir.Re.{nothing, text, as_pattern, none_of, star, search_text, match_at, sub_once}
use hachoir.Cmake.{
  find_filenames_match, matching_words, remove_double_newlines, append_value, is_filename,
  comment_out_lines, remove_value, check_for_glob,
}
use hachoir.Cmake.Comments.{comment_out_twice}
use hachoir.Re.Taken.{no_group}
use hachoir.Cmake.Appended.{Appends, append_value-Appends}
use hachoir.Cmake.Commented.{unlines, marked, are_alone, stands_once, comment_out_lines_marks}
use hachoir.Re.First.{ends_line}
use hachoir.Cmake.TakenOut.{entry_with, remove_value_takes_out}
use hachoir.Cmake.Removed.{Removes, remove_value-Removes}
use hachoir.Cmake.Entry.{entry_text, with_value}
use hachoir.Cmake.Values.{append_value_inserts}
use hachoir.Cmake.Words.{from_word, append_value_before_word}
use hachoir.Re.First.{absent}
use hachoir.Cmake.Squeezed.{squeezed}
use hachoir.Cmake.Breaks.{is_loose, remove_double_newlines-bound}

comment_out_twice_test :
    comment_out_lines (text (codes "foo")) (codes "#") (codes "add foo\nadd foo")
    ≡ codes "##add foo\n##add foo"
unfolding search_text
comment_out_twice_test = comment_out_twice (text (codes "foo")) b'a' (codes "dd foo") refl refl refl

-- file names in the lines that are no comments
filenames_test :
    find_filenames_match
      (as_pattern (codes "foo"))
      (codes "add(lib/foo.cc\n  bar.cc qa_foo.cc)\n# foo.py\n")
    ≡ codes "foo.cc" ∷ codes "qa_foo.cc" ∷ []
unfolding find_filenames_match matching_words is_filename search_text match_at
filenames_test = refl

remove_value_test :
    remove_value
      (codes "install")
      (text (codes "foo.h"))
      (star (none_of (codes "()\n")))
      (codes "install(FILES foo.h bar.h)")
    ≡ codes "install(FILES bar.h)"
unfolding remove_value sub_once
remove_value_test = refl

glob_test : check_for_glob (codes "*.h") (codes "file(glob x \"*.H\")") ≡ true
unfolding check_for_glob search_text
glob_test = refl

-- three line breaks, and then four
remove_double_newlines-bound_example :
    (remove_double_newlines (codes "a\n\n\nb\n\n\n\n") ≡ squeezed false (codes "a\n\n\nb\n\n\n\n"))
    × (is_loose (remove_double_newlines (codes "a\n\n\nb\n\n\n\n")) ≡ true)
remove_double_newlines-bound_example = remove_double_newlines-bound (codes "a\n\n\nb\n\n\n\n")

append_value-Appends_example :
    (append_value
        (codes "\n    ")
        (codes "add_library")
        (codes "b.cc")
        nothing
        (codes "x(y)\nadd_library(a.cc\n\n)\n")
      ≡ codes "x(y)\nadd_library(a.cc\n\n)\n")
    ⊎ Appends
        (codes "\n    ")
        (codes "add_library")
        (codes "b.cc")
        (codes "x(y)\nadd_library(a.cc\n\n)\n")
        (append_value
          (codes "\n    ")
          (codes "add_library")
          (codes "b.cc")
          nothing
          (codes "x(y)\nadd_library(a.cc\n\n)\n"))
unfolding no_group
append_value-Appends_example =
    append_value-Appends (codes "\n    ") (codes "add_library") (codes "b.cc") nothing
      (codes "x(y)\nadd_library(a.cc\n\n)\n") refl

-- of two line breaks, one goes
append_value_test :
    append_value
      (codes "\n    ")
      (codes "add_library")
      (codes "b.cc")
      nothing
      (codes "x(y)\nadd_library(a.cc\n\n)\n")
    ≡ codes "x(y)\nadd_library(a.cc\n    b.cc\n)\n"
unfolding append_value sub_once
append_value_test = refl

abbrev before_entry : Text
before_entry = codes "add_test(x)\n"

append_value_inserts_example :
    (kept : Text) × (out : Text) × (blank : Text) × (codes "\n\n" ≡ kept ++ (out ++ blank))
    × (append_value (codes "\n    ") (codes "add_library") (codes "b.cc") nothing (
          before_entry
          ++ entry_text (codes "add_library") (codes "m a.cc") (codes "\n\n") [] (codes "\n"))
        ≡ before_entry
          ++ with_value
              (codes "\n    ")
              (codes "b.cc")
              (codes "add_library")
              (codes "m a.cc")
              kept
              (blank ++ [])
              (codes "\n"))
unfolding absent
append_value_inserts_example =
    append_value_inserts (codes "\n    ") (codes "add_library") (codes "b.cc") before_entry
      (codes "m a.cc") (codes "\n\n") (codes "\n") refl refl refl refl

append_value_before_word_example :
    (kept : Text) × (out : Text) × (blank : Text) × (codes "\n" ≡ kept ++ (out ++ blank))
    × (append_value
          (codes "\n    ")
          (codes "install")
          (codes "b.h")
          (from_word (codes "DESTINATION"))
          (before_entry
            ++ entry_text
                (codes "install")
                (codes "FILES\n    a.h")
                (codes "\n")
                (codes "DESTINATION include")
                (codes "\n"))
        ≡ before_entry
          ++ with_value
              (codes "\n    ")
              (codes "b.h")
              (codes "install")
              (codes "FILES\n    a.h")
              kept
              (blank ++ codes "DESTINATION include")
              (codes "\n"))
unfolding absent
append_value_before_word_example =
    append_value_before_word (codes "\n    ") (codes "install") (codes "b.h") before_entry
      (codes "FILES\n    a.h") (codes "\n") b'D' (codes "ESTINATION") b' ' (codes "include")
      (codes "\n") refl (record { before = refl; behind = refl }) refl refl refl refl refl

install_test :
    append_value
      (codes "\n    ")
      (codes "install")
      (codes "b.h")
      (from_word (codes "DESTINATION"))
      (codes "install(FILES\n    a.h DESTINATION include\n)\n")
    ≡ codes "install(FILES\n    a.h\n    b.h DESTINATION include\n)\n"
unfolding append_value sub_once
install_test = refl

-- the blank line before the entry goes too
remove_value_blank_test :
    remove_value
      (codes "install")
      (text (codes "foo.h"))
      nothing
      (codes "a()\n\n  install(FILES foo.h bar.h)\n")
    ≡ codes "a()\ninstall(FILES bar.h)\n"
unfolding remove_value sub_once
remove_value_blank_test = refl

remove_value-Removes_example :
    (remove_value
        (codes "install")
        (text (codes "foo.h"))
        nothing
        (codes "a()\n\n  install(FILES foo.h bar.h)\n")
      ≡ codes "a()\n\n  install(FILES foo.h bar.h)\n")
    ⊎ Removes
        (codes "install")
        (text (codes "foo.h"))
        (codes "a()\n\n  install(FILES foo.h bar.h)\n")
        (remove_value
          (codes "install")
          (text (codes "foo.h"))
          nothing
          (codes "a()\n\n  install(FILES foo.h bar.h)\n"))
unfolding no_group
remove_value-Removes_example =
    remove_value-Removes (codes "install") (text (codes "foo.h")) nothing
      (codes "a()\n\n  install(FILES foo.h bar.h)\n") refl refl

abbrev some_lines : List Text
some_lines = codes "GR_ADD_TEST(qa_a a)" ∷ codes "" ∷ codes "add foo.cc" ∷ codes "add bar.cc" ∷ []

comment_out_lines_marks_example :
    comment_out_lines (text (codes "foo")) (codes "#") (unlines some_lines)
    ≡ unlines (map (marked (text (codes "foo")) (codes "#")) some_lines)
unfolding are_alone stands_once search_text absent
comment_out_lines_marks_example =
    comment_out_lines_marks (text (codes "foo")) (codes "#") some_lines refl refl

remove_value_takes_out_example :
    Removes
      (codes "add_library")
      (as_pattern (codes "b.cc"))
      (codes "x()\n"
        ++ entry_with
            (codes "  ")
            (codes "add_library")
            (codes "m a.cc ")
            (codes "b.cc")
            (codes " c.cc")
            (codes "\n"))
      (remove_value (codes "add_library") (as_pattern (codes "b.cc")) nothing (
        codes "x()\n"
        ++ entry_with
            (codes "  ")
            (codes "add_library")
            (codes "m a.cc ")
            (codes "b.cc")
            (codes " c.cc")
            (codes "\n")))
unfolding ends_line
remove_value_takes_out_example =
    remove_value_takes_out (codes "add_library") (codes "b.cc") (codes "x()\n") (codes "  ")
      (codes "m a.cc ") (codes " c.cc") (codes "\n") refl refl refl refl refl

-- a name at the end of another
remove_value_inside_test :
    remove_value
      (codes "add_library")
      (as_pattern (codes "foo.cc"))
      nothing
      (codes "add_library(m qa_foo.cc bar.cc foo.cc)")
    ≡ codes "add_library(m qa_bar.cc foo.cc)"
unfolding remove_value sub_once
remove_value_inside_test = refl
