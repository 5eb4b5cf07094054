-- ===== src/Markers.antt =====
-- crates/sinks/sink-markdown-file/src/markers.rs: the blocks that the sink owns in a markdown file.
-- `Syntax` has the data and the marker lines, `Lines` the split into lines, `Attrs` the attributes
-- of a begin line, `Document` the parser, the renderer and the splicer.
mod Syntax
mod Lines
mod Attrs
mod Document
mod Tests
