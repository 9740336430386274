-- ===== src/Lib.antt =====
-- Hachoir's Python tools. `gr_modtool.py` maintains a GNU Radio module: it edits CMakeLists.txt
-- files, reads C++ blocks, and writes their descriptions for the graphical editor (GRC). The package
-- `gr-gtsrc/docs/doxygen/doxyxml` reads doxygen's XML, from which `gr-gtsrc/docs/doxygen/swig_doc.py` makes
-- docstrings.
--
-- - Prelude.antt and its children: texts as lists of character codes, with the methods of `str` that
--   the tools call (`split`, `strip`, `replace`, …), lists over the native ℕ, and integers.
-- - Re.antt: regular expressions as Python's `re` runs them, by backtracking over a cursor in the
--   text with its groups. A star is tried again only behind a match that is not empty, and it is
--   bounded by the length of the text behind the cursor; `search`, `sub` and `findall` are bounded
--   by the length of the text as well. Re/Steps.antt and the files beside it say where a match may
--   lead, and what a replacement leaves of a text; Re/Complete.antt and Re/First.antt say where a match
--   is found, and what a search finds first.
-- - CcParser.antt: `ParserCCBlock.read_params._scan_param_list` of gr_modtool.py, the scanner of a
--   C++ argument list. `Scan` holds its local variables, `step` is one round of its `while` loop, and
--   each `ValueError` is an error with its arguments. The loop runs on fuel: each round takes a
--   character, but for the one that meets the comma behind a name, so that two rounds for each
--   character and two more are enough.
--   Params.antt is the rest of `read_params`, with `_type_translate` of `ModToolMakeXML`;
--   IoSignature.antt is `read_io_signature`. `Outcome` holds what a run may end with: a value, an
--   exception that no handler takes, or `sys.exit`.
-- - Grc.antt: `GRCXMLGenerator`, which takes what `ParserCCBlock` returns and makes the element
--   tree; `is_number` and `xml_indent`. `elem.text` and `elem.tail` may be absent, as in `xml.etree`.
-- - Cmake.antt: `CMakeFileEditor`. The editor is its buffer; the entry names that the callers pass
--   are plain texts, and the patterns are arguments. Below it, Appended.antt, Inserted.antt, Values.antt
--   and Words.antt are about `append_value`, Removed.antt and TakenOut.antt about `remove_value`,
--   Newlines.antt, Squeezed.antt and Breaks.antt about `remove_double_newlines`, Commented.antt and
--   Comments.antt about `comment_out_lines`.
-- - Modtool.antt: the commands of a module. World.antt has the files, the answers of the user, and a
--   monad in which what was written before `sys.exit` or an exception stays written. Util.antt has the
--   functions at the top of gr_modtool.py, ModuleName.antt `get_modname`, Base.antt `ModTool` (setup,
--   `_check_directory`); Choice.antt what `rm` and `disable` share; Remove.antt is `ModToolRemove`, and
--   Kept.antt, Unmatched.antt and Emptied.antt are about it. Disable.antt is
--   `ModToolDisable`, MakeXml.antt `ModToolMakeXML`, which runs the parser and the generator
--   above on each block. Add.antt is `ModToolAdd.setup`, AddLib.antt and AddRun.antt its `run`, one
--   function for each directory; Info.antt is `ModToolInfo`, NewModule.antt `ModToolNewModule`; Main.antt
--   the dictionary of commands, `main`, and `help`. What the operating system says of directories,
--   `re.compile`, Cheetah on the templates, and the unpacked archive of `newmod` are arguments. Every
--   loop is over a list that is made before it, or over the answers that are left, and needs no fuel.
-- - Generated.antt: the searches that doxyxml/generated/index.py and compound.py add to the generated
--   classes; Para.antt is how a paragraph is built.
-- - DoxyText.antt: doxyxml/text.py, the text of a description.
-- - Doxy.antt: doxyxml/base.py and doxyxml/doxyindex.py. Objects live in a heap, since `_refs` of the
--   index and the lists of members share them; Heap.antt has the monad, in which what was written
--   before an exception stays written. Base.antt makes objects, Parse.antt fills them when they are
--   first asked for, Lookup.antt finds members by category and by name. The XML files are the
--   argument `Files`: what the generated parser (doxyxml/generated, made by generateDS) returns for
--   each reference. Only the index parses its files while it is parsed, and no index is a member, so
--   that the recursion of `check_parsed` is two levels deep and needs no fuel. Valid.antt says when a
--   heap is valid; the files below it have a rule for each way to put runs on the heap together, and
--   follow the operations in the order in which they call each other. Once.antt is about the members
--   that `process_memberdefs` adds, Cached.antt, Dict.antt, Settled.antt and Asked.antt about what an
--   object keeps of the lookups in it.
-- - SwigDoc.antt: gr-gtsrc/docs/doxygen/swig_doc.py, over the objects of Doxy.antt: the entries of
--   functions, classes and blocks, and the text of the interface file. Gives.antt and
--   Written.antt are about that text, the others below it about the heap and about the escaping of
--   quotes.
--
-- Texts are ASCII; `print` is left out, with the texts of `info` and `help`, and so are the modes of
-- files. `make_xml` and the editor are modelled up to the serialiser and the file system. Names of
-- blocks and modules that go into a pattern have no special character but the dot, and those that go
-- into a replacement have no backslash. Not modelled: the option parsers, the templates with the
-- embedded tarball, the classes that generateDS makes (compoundsuper.py, indexsuper.py), and the C++
-- and QML parts of the repository, which are in other languages.
pub mod Prelude
pub mod Re
pub mod CcParser
pub mod Grc
pub mod Generated
pub mod DoxyText
pub mod Doxy
pub mod Cmake
pub mod Modtool
pub mod SwigDoc
