-- ===== src/Lib.antt =====
-- Verification of the PIRA tools, Rust programs under tools/src.
--
-- The parts modelled, which are independent programs:
-- * pira_dec keeps decision records. `Dec.Time` is the date arithmetic of
--   tools/src/pira_dec/util.rs (validate_timestamp, civil_from_days, utc_parts, and the two formats).
--   `Dec.Model` and `Dec.Codec` are tools/src/pira_dec/model.rs: drafts, records and their checks
--   (validate, validate_fields, validate_relationships, validate_id, from_draft), and the binary form
--   (put_tlv, encode, decode). The variables of the loop in decode are the record `Fields`.
--   `Dec.Browse` is how tools/src/pira_dec/lib.rs selects records to list, search and export
--   (visit_records, load_bounded_records, load_export_records, run_list, record_matches). What is read
--   of each file is its input, and the heap is the list of what it holds. `Dec.Args` is how
--   tools/src/pira_dec/cli.rs reads the arguments of list, export and search.
-- * pira_write_check finds marker words in texts, tools/src/pira_write_check/lib.rs.
--   `WriteCheck.Lines` is source_lines. `WriteCheck.Check` is check_shared: the search for the
--   markers of a line, the sort, and the loop over the lines. `WriteCheck.Groups` is its inner loop,
--   which joins overlapping hits; the loop's variables are the record `Scan`.
-- * pira_svg_check guards SVG files. `SvgCheck.Css` is the scanner of tools/src/pira_svg_check/css.rs,
--   which finds references in styles and refuses those out of the file.
-- * pira_ctx captures the output of commands. `Ctx.Terminal` is sanitize_terminal and safe_prefix of
--   tools/src/pira_ctx/util.rs, `Ctx.Stdout` is its BoundedStdout, which keeps a
--   report to a number of bytes, and `Ctx.Clip` is single_line_clip and xml_field. Its watches,
--   tools/src/pira_ctx/watch, sample a probe or a capture until a job is done:
--   * `Ctx.Watch.State` is state.rs: the state of a watch, and the control file that other commands
--     leave for its owner. `Ctx.Watch.View` is render.rs: TerminalView, feed and restoring.
--   * `Ctx.Watch.Control` is the closure of update_controls in mod.rs, which queues an update in the
--     control file, and apply_control, by which the owner takes it up. An update reads the watch on
--     disk, and the owner takes it up in memory: the steps of both, of the writes of the owner and of
--     the requests to stop are the relation `Reached`. `Ctx.Watch.Attention` is
--     evaluate_attention, update_attention and remaining_ms.
--   * `Ctx.Watch.Tails`, `Ctx.Watch.Sample` and `Ctx.Watch.Analyzer` are sample.rs and analyzer.rs: the
--     buffers, probe and capture with collect, and the analyzer's run. `Ctx.Watch.Incorporate` is
--     incorporate_sample.
--   * `Ctx.Watch.Own` is the body and the loop of own, and `Ctx.Watch.Command` what is in front of the
--     loop, with validate. What the clock, the files and the processes answer in one round of the loop
--     is the record `Round`; the watch in memory and the one on disk are two arguments, and a `Step` is
--     another round or the result of the command.
--   Its stored results: `Ctx.Section` is SectionReader and StreamReaders of tools/src/pira_ctx/model.rs
--   (copy_range with its cache of one block, copy_line, read_bounded and the reads on them), where a reader is
--   passed on from read to read; `Ctx.Blocks` is write_block_stream, encode_block_table_v4 and the decoders of
--   block tables of tools/src/pira_ctx/storage.rs, whose sums are the record `Sums`.
--   `Ctx.Plan` is run with a plan: load_rows, validate_steps and the steps of apply, each a function on rows; a plan
--   enters as the list of its steps. `Ctx.Transform` is run without a plan of tools/src/pira_ctx/transform.rs (stream_direct, retain_unique), and the
--   loop of run_transform in lib.rs that prints its lines. The variables of stream_direct are `Direct` and `Kept`, and
--   a round of its loop ends in a `Flow`, to continue or to break. `Ctx.Transform.Rows` is its description on all lines.
-- `Common` has what these share: tests on numbers, lists measured by native numbers, `Result`, UTF-8,
-- classes of characters, and integers with a sign.
--
-- Conventions. A string is the list of its scalar values, and bytes are a list of numbers; `utf8`
-- and `from_utf8` go between them. An error message is a constructor of an error type, so a
-- theorem tells which check refused; in the watches, which keep and compare messages, it is its
-- text. `Result`, `?` and early returns are `ok`, `err`, do blocks and `reject`. A loop is
-- structural recursion, or recursion on fuel. Fuel stands in decode (as much as the body has
-- bytes: each round takes five), in the search for markers (as much as the line has bytes, and
-- one: each round goes on by a character), and in the scanner (as much as there are characters:
-- each round takes one). The loops of a watch have no fuel: they run over the list of their turns,
-- and a result `none` or `waits` says that they go on behind it.
--
-- Parameters, for code of other projects: the SHA-256 digest, of which the length of 32 bytes is
-- assumed; the encoder and decoder of the lz4_flex crate, of which it is assumed that the decoder
-- turns back what the encoder wrote, and that this is not empty; what the system answers where a
-- stored file is read; the terminal of the vt100 crate, of which it is assumed that its rows are
-- empty at the start, with the matches of the expression for control sequences, which has none in
-- no bytes; the JSON reader of the serde_json crate and the arithmetic of `f64`, of which nothing
-- is assumed; and the compiled expressions of the regex crate, of which it is assumed that a match
-- is not empty and lies in the line at the offset asked for or behind it. Which writes of
-- `Ctx.Stdout` fail is a parameter of which nothing is assumed; its log holds the writes that
-- succeed, and what a failed one has put out, in whole or in part, is not modelled.
--
-- Not modelled: the other command lines, files and directories, processes, HTML export, the JSON
-- lexicon and how its expressions are written; the other checks of pira_svg_check, which drive a
-- renderer and an XML reader; of the watches, their creation, listing and stopping, the text of
-- their report, and process trees; of stored results, their header, their index of lines and their
-- directory; how a plan is parsed; the rest of pira_ctx, and pira_nav and pira_team, which work on
-- processes, parsers and remote services. `usize` has 64 bits; no sum of lengths that is modelled
-- reaches that.
pub mod Common
pub mod Dec
pub mod WriteCheck
pub mod SvgCheck
pub mod Ctx
